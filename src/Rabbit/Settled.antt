-- ===== src/Rabbit/Settled.antt =====
-- What becomes of a borrowed publisher (publish of rabbit/publisherpool.go).
use go_o11y.Prelude.{
  ◌≡◌, refl, ◌∙◌, ℕ, String, true, Option, none, some, List, [], ◌∷◌, ◌++◌, append_assoc,
}
use go_o11y.Errors.{Err, Result, ok, err}
use go_o11y.Span.{Span, start}
use go_o11y.Rabbit.{
  Message, PoolEvent, borrowed, sent, given_back, closed, Outside, PublisherPool, settle, end_in,
  publish_with, publish_any, publish_mandatory, publish_message, publish_optional, with_json,
  publish_json, publish_json_optional, json, publish_fields,
}

-- The events of one publication of the message, with its error: no publisher could be borrowed; or
-- one was borrowed, given the message once, and given back; or it could not be given back, and was
-- closed.
pub data Settles (msg : Message) : Option Err → List PoolEvent → Type 0 where
  refused : {e : Err} → Settles msg (some e) (borrowed (err e) ∷ [])
  returned :
      {e : Option Err} {n : ℕ}
      → Settles msg e (borrowed (ok n) ∷ sent n msg e ∷ given_back n none ∷ [])
  dropped :
      {e : Option Err} {n : ℕ} {f : Err}
      → Settles msg e (borrowed (ok n) ∷ sent n msg e ∷ given_back n (some f) ∷ closed n ∷ [])

-- An outcome of an operation on the pool that published the message.
abbrev pub Published : Message → PublisherPool → Option Err × PublisherPool → Type 0
Published msg p out = (l : List PoolEvent) × (out.1.events ≡ p.events ++ l) × Settles msg out.0 l

-- An outcome of an operation with the JSON of a value.
abbrev pub PublishedJson :
    (Message → Message)
    → Message
    → Result String
    → PublisherPool
    → Option Err × PublisherPool
    → Type 0
PublishedJson f msg (err e) p out = (out.0 ≡ some e) × (out.1.events ≡ p.events)
PublishedJson f msg (ok b) p out =
    Published (f (record msg { content_type = json; body = b })) p out

abbrev pub mandatory_of : Message → Message
mandatory_of msg = record msg { mandatory = true }

three :
    (l : List PoolEvent) (a b : PoolEvent) (m : List PoolEvent)
    → ((l ++ a ∷ []) ++ b ∷ []) ++ m ≡ l ++ a ∷ b ∷ m
three l a b m = append_assoc (l ++ a ∷ []) (b ∷ []) m ∙ append_assoc l (a ∷ []) (b ∷ m)

module _ (o : Outside) where
  publish_with-Published :
      (msg : Message) (r : Result ℕ) (p : PublisherPool) → Published msg p (publish_with o msg r p)
  unfolding publish_with settle
  publish_with-Published msg (err e) p = (borrowed (err e) ∷ [], refl, refused)
  publish_with-Published msg (ok n) p =
      let lent = p.events ++ borrowed (ok n) ∷ [] in
      let e = o.send lent n msg in let done = lent ++ sent n msg e ∷ [] in go e (o.give_back done n)
    where
      go :
          (e f : Option Err)
          → Published msg p (
            e,
            settle n f
                (record p { events = (p.events ++ borrowed (ok n) ∷ []) ++ sent n msg e ∷ [] }),
          )
      go e none = (
        borrowed (ok n) ∷ sent n msg e ∷ given_back n none ∷ [],
        three p.events (borrowed (ok n)) (sent n msg e) (given_back n none ∷ []),
        returned,
      )
      go e (some f) = (
        borrowed (ok n) ∷ sent n msg e ∷ given_back n (some f) ∷ closed n ∷ [],
        three p.events (borrowed (ok n)) (sent n msg e) (given_back n (some f) ∷ closed n ∷ []),
        dropped,
      )

  publish_any-Published :
      (msg : Message) (p : PublisherPool) → Published msg p (publish_any o msg p)
  unfolding publish_any
  publish_any-Published msg p = publish_with-Published msg (o.borrow p.events) p

  with_json-PublishedJson :
      (f : Message → Message) (publish : Message → PublisherPool → Option Err × PublisherPool)
      → ((msg : Message) (p : PublisherPool) → Published (f msg) p (publish msg p))
      → (msg : Message) (x : Result String) (p : PublisherPool)
      → PublishedJson f msg x p (with_json o publish msg x p)
  unfolding with_json
  with_json-PublishedJson f publish k msg (err e) p = (refl, refl)
  with_json-PublishedJson f publish k msg (ok b) p =
      k (record msg { content_type = json; body = b }) p

  end_in-PublishedJson :
      (calls : Span) (f : Message → Message) (msg : Message) (x : Result String) (p : PublisherPool)
      (out : Option Err × PublisherPool)
      → PublishedJson f msg x p out
      → PublishedJson f msg x p (end_in calls out)
  unfolding end_in
  end_in-PublishedJson calls f msg (err e) p out h = h
  end_in-PublishedJson calls f msg (ok b) p out h = h

  -- Each of the four operations borrows at most one publisher, gives it the message once, and gives
  -- the publisher back or, if that fails, closes it, whatever came of the message, of which the error
  -- is the operation's; if none can be borrowed, that is the error, and nothing is sent. Publish and
  -- PublishJSON send the message as mandatory, the other two as it is; the two for JSON send the
  -- encoded value with the content type of JSON, or touch nothing if it cannot be encoded.
  pub publish-Settles :
      (msg : Message) (x : Result String) (p : PublisherPool)
      → Published (mandatory_of msg) p (publish_message o msg p)
        × Published msg p (publish_optional o msg p)
        × PublishedJson mandatory_of msg x p (publish_json o msg x p)
        × PublishedJson (λ m. m) msg x p (publish_json_optional o msg x p)
  unfolding publish_message publish_optional publish_json publish_json_optional publish_mandatory
      end_in
  publish-Settles msg x p =
      let json_calls =
        start "pool: publish_json" (record { kind = none }) ∷ publish_fields msg json in
      (
        publish_any-Published (mandatory_of msg) p,
        publish_any-Published msg p,
        end_in-PublishedJson json_calls mandatory_of msg x p
            (with_json o (publish_mandatory o) msg x p)
            (with_json-PublishedJson mandatory_of (publish_mandatory o)
              (λ m q. publish_any-Published (mandatory_of m) q) msg x p),
        end_in-PublishedJson json_calls (λ m. m) msg x p (with_json o (publish_any o) msg x p)
            (with_json-PublishedJson (λ m. m) (publish_any o) publish_any-Published msg x p),
      )
