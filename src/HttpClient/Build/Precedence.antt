-- ===== src/HttpClient/Build/Precedence.antt =====
-- Which of several sources sets a header of a request (httpclient/httpclient.go).
use Prim.Native.String.{◌++◌ as concat}
use go_o11y.Prelude.{
  ◌≡◌, refl, sym, ap, ◌∙◌, eq_iff, Bool-cases, inl, inr, arith, String, Option, none, some, [], ◌∷◌,
  str_eq, if◌then◌else◌, Dict, get, put, get-put, or_else, is_some,
}
use go_o11y.HttpClient.Config.{Client}
use go_o11y.HttpClient.Request.{Request}
use go_o11y.HttpClient.Build.{set_headers, auth_headers, add_cookie, header_of, json_type}

-- The last entry whose canonical key is `k`.
abbrev pub last_of : (String → String) → String → Dict String → Option String
last_of canonical k [] = none
last_of canonical k ((j, v) ∷ m) =
    or_else (last_of canonical k m) (if str_eq (canonical j) k then some v else none)

module _ (canonical : String → String) where
  get-set_headers :
      (k : String) (kvs h : Dict String)
      → get k (set_headers canonical kvs h) ≡ or_else (last_of canonical k kvs) (get k h)
  unfolding set_headers
  get-set_headers k [] h = refl
  get-set_headers k ((j, v) ∷ kvs) h =
      ground (arith, get-set_headers k kvs (put (canonical j) v h), get-put (canonical j) k v h)

  -- The value that the authorization gives to a header.
  abbrev pub auth_value : Client → String → Option String
  auth_value c k =
      if str_eq c.auth_token ""
      then none
      else if str_eq c.auth_header ""
      then (if str_eq (canonical "Authorization") k
          then some (concat "Bearer " c.auth_token)
          else none)
      else if str_eq (canonical c.auth_header) k
      then some c.auth_token
      else none

  abbrev pub accept_value : Client → String → Option String
  accept_value c k =
      if str_eq c.accept_type ""
      then none
      else if str_eq (canonical "Accept") k
      then some c.accept_type
      else none

  abbrev pub content_value : Request → String → Option String
  content_value r k =
      if is_some r.body
      then (if str_eq (canonical "Content-Type") k then some json_type else none)
      else none

  -- A cookie goes behind those that a header has.
  abbrev pub joined : String → Option String → String
  joined c none = c
  joined c (some old) = if str_eq old "" then c else concat old (concat "; " c)

  abbrev pub cookie_value : Option String → String → Option String → Option String
  cookie_value none k before = before
  cookie_value (some c) k before =
      if str_eq (canonical "Cookie") k then some (joined c before) else before

  get-add_cookie :
      (cookie : Option String) (k : String) (h : Dict String)
      → get k (add_cookie canonical cookie h) ≡ cookie_value cookie k (get k h)
  unfolding add_cookie
  get-add_cookie none k h = refl
  get-add_cookie (some c) k h = go (get (canonical "Cookie") h) refl
    where
      text : Option String → String
      text x = elim x as (λ _. String) [ none ↦ "" | some v ↦ v ]

      set : String → String
      set old = if str_eq old "" then c else concat old (concat "; " c)

      same : (x : Option String) → set (text x) ≡ joined c x
      same none = refl
      same (some v) = refl

      go :
          (x : Option String)
          → get (canonical "Cookie") h ≡ x
          → get k (put (canonical "Cookie") (set (text (get (canonical "Cookie") h))) h)
            ≡ cookie_value (some c) k (get k h)
      go x e = elim (Bool-cases (str_eq (canonical "Cookie") k)) [
        | inl q ↦
            let s : canonical "Cookie" ≡ k = (eq_iff (canonical "Cookie") k).0 q in
            ground (
              arith,
              q,
              get-put (canonical "Cookie") k (set (text (get (canonical "Cookie") h))) h,
              same (get (canonical "Cookie") h),
              ap (λ j. joined c (get j h)) s,
            )
        | inr q ↦
            ground
              (arith, q, get-put (canonical "Cookie") k (set (text (get (canonical "Cookie") h))) h)
      ]

  get-auth_headers : (c : Client) (k : String) → get k (auth_headers canonical c) ≡ auth_value c k
  unfolding auth_headers get put
  get-auth_headers c k = ground arith

  -- A header of the built request has the value of the first of these that sets it: the JSON
  -- content type of a request with a body, the client's accept type, the last of the request's own
  -- headers under that canonical key, those of the client, and the authorization. The cookie of a
  -- request goes into the header Cookie, behind what the last three of these set there.
  pub header_of-precedence :
      (c : Client) (r : Request) (k : String)
      → get k (header_of canonical c r)
        ≡ or_else (content_value r k) (
            or_else (accept_value c k) (
              cookie_value r.cookie k (
                or_else
                  (last_of canonical k r.headers)
                  (or_else (last_of canonical k c.additional_headers) (auth_value c k)))))
  unfolding header_of
  header_of-precedence c r k =
      let h1 = set_headers canonical c.additional_headers (auth_headers canonical c) in
      let hr = set_headers canonical r.headers h1 in
      let h2 = add_cookie canonical r.cookie hr in
      rw (sym (before k)) (
        ground (
          arith,
          get-add_cookie r.cookie k hr,
          get-put (canonical "Accept") k c.accept_type h2,
          get-put (canonical "Content-Type") k json_type h2,
          get-put (canonical "Content-Type") k json_type
              (put (canonical "Accept") c.accept_type h2),
        ))
    where
      before :
          (k : String)
          → get k (
              set_headers canonical r.headers
                (set_headers canonical c.additional_headers (auth_headers canonical c)))
            ≡ or_else
                (last_of canonical k r.headers)
                (or_else (last_of canonical k c.additional_headers) (auth_value c k))
      before k =
          get-set_headers k r.headers
            (set_headers canonical c.additional_headers (auth_headers canonical c))
          ∙ ap (or_else (last_of canonical k r.headers)) (
              get-set_headers k c.additional_headers (auth_headers canonical c)
              ∙ ap (or_else (last_of canonical k c.additional_headers)) (get-auth_headers c k))
