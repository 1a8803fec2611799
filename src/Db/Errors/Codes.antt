-- ===== src/Db/Errors/Codes.antt =====
-- What callers can learn from a mapped error (db/error.go).
use go_o11y.Prelude.{
  inr, inl, Bool-cases, sym, ◌∙◌, inr, ◌∙◌, sym, eq_iff, inl, Bool-cases, ◌≡◌, refl, arith, String,
  true, false, Option, some, ◌||◌, str_eq, List,
}
use go_o11y.Errors.{Err, PgError, pg, db, find, as_pg, is_warning, err_is, is}
use go_o11y.Errors.Laws.{wrap_all, is-wrap_all, find-wrap_all}
use go_o11y.Db.Errors.{
  err_nop, err_constrained, err_exception, err_canceled, err_bad_conn, sentinel_of, map_error,
  bad_conn, pq_error, driver_bad_conn,
}

map_error-pg :
    (ms : List String) (p : PgError)
    → map_error (some (wrap_all ms (pg p))) ≡ (true, some (db p (sentinel_of p.code)))
unfolding map_error err_is is find
map_error-pg ms p =
    ground
      (arith, is-wrap_all ms (pg p) driver_bad_conn, find-wrap_all ms (pg p) as_pg (λ m x. refl))

-- At most one of two different literals is equal to a text.
one_of : (c d : String) (s : String) → str_eq c d ≡ false → str_eq s c ≡ true → str_eq s d ≡ false
one_of c d s n h = elim (Bool-cases (str_eq s d)) [
  | inl k ↦ cc (n, (eq_iff c d).1 (sym ((eq_iff s c).0 h) ∙ (eq_iff s d).0 k))
  | inr k ↦ k
]

module _ (p : PgError) where
  abbrev mapped : Option Err
  mapped = some (db p (sentinel_of p.code))

  sentinel_codes :
      (err_is mapped err_constrained ≡ str_eq p.code "23503")
      × (err_is mapped err_exception ≡ str_eq p.code "P0001")
      × (err_is mapped err_canceled ≡ str_eq p.code "57014")
      × (err_is mapped err_nop ≡ str_eq p.code "23505")
      × (is_warning mapped ≡ (str_eq p.code "57014" || str_eq p.code "23505"))
      × (err_is mapped err_bad_conn ≡ false)
      × (err_is mapped driver_bad_conn ≡ false)
  unfolding sentinel_of err_is is is_warning
  sentinel_codes = ground (
    arith,
    one_of "23503" "P0001" p.code refl,
    one_of "23503" "57014" p.code refl,
    one_of "23503" "23505" p.code refl,
    one_of "P0001" "57014" p.code refl,
    one_of "P0001" "23505" p.code refl,
    one_of "57014" "23505" p.code refl,
  )

  map_error-mapped : (map_error mapped).1 ≡ mapped
  unfolding map_error find
  map_error-mapped = ground (arith, sentinel_codes)

-- A server error, however often it was wrapped, is mapped to one that errors.Is tells apart by its
-- SQLSTATE: a foreign key violation, a raised exception, a cancelled statement, and a unique
-- violation, which counts as ErrNop. The last two alone are warnings. It is no bad connection, the
-- server's error can be had back, and a second mapping changes nothing.
pub map_error-codes :
    (ms : List String) (p : PgError)
    → let e = (map_error (some (wrap_all ms (pg p)))).1 in
      ((map_error (some (wrap_all ms (pg p)))).0 ≡ true)
      × (err_is e err_constrained ≡ str_eq p.code "23503")
      × (err_is e err_exception ≡ str_eq p.code "P0001")
      × (err_is e err_canceled ≡ str_eq p.code "57014")
      × (err_is e err_nop ≡ str_eq p.code "23505")
      × (is_warning e ≡ (str_eq p.code "57014" || str_eq p.code "23505"))
      × (bad_conn e ≡ false)
      × (pq_error e ≡ some p)
      × ((map_error e).1 ≡ e)
unfolding pq_error bad_conn find
map_error-codes ms p =
    let s = sentinel_codes p in
    rw (map_error-pg ms p) (refl, s.0, s.1, s.2, s.3, s.4, s.5, refl, map_error-mapped p)
