-- ===== src/Compiler/Paths.antt =====
-- What results point to when Run has compiled them (releases/compiler/compiler.go and parallel.go).
use mathlib.Core.List.{Memᴰ}
use mathlib.Core.List.Memᴰ
use go_o11y.Prelude.Partial.{some_inj}
use go_o11y.Prelude.{
  ℕ, ◌≡◌, ◌≢◌, ◌==◌, Bool-cases, refl, ap, ◌∙◌, ◌⊎◌, inl, inr, arith, String, Option, none, some,
  List, [], ◌∷◌, ◌++◌, All, All-append,
}
use go_o11y.Errors.{Err, Result, ok, err}
use go_o11y.Compiler.{
  Work, Command, Outside, Compiler, Cells, compile, path_of, command_of, write_result,
}
use go_o11y.Compiler.Pool.{
  Pool, Worker, Step, take, take_zero, leave, finish, Steps, here, next, after_compile,
}

module _ (o : Outside) (c : Compiler) where
  -- A compiled work whose result has a cell finds there the path of a compiled work with that cell.
  abbrev pub HasPaths : Pool → List Work → Type 0
  HasPaths s = All (λ w.
      (i : ℕ)
      → w.result ≡ some i
      → (v : Work) × Memᴰ v s.done × (v.result ≡ some i) × (s.cells i ≡ path_of o c v))

  -- What Compile does to the cells, when it succeeds.
  Written : Work → Cells → Result String × Cells → Type 0
  Written w cells (err e, cells') = Unit
  Written w cells (ok path, cells') =
      (i : ℕ)
      → ((cells' i ≡ cells i) × (w.result ≢ some i))
        ⊎ ((w.result ≡ some i) × (cells' i ≡ path_of o c w))

  write_result-cases :
      (r : Option ℕ) (path : String) (cells : Cells) (i : ℕ)
      → ((write_result o r path cells i ≡ cells i) × (r ≢ some i))
        ⊎ ((r ≡ some i) × (write_result o r path cells i ≡ path))
  unfolding write_result
  write_result-cases none path cells i = inl (refl, λ h. cc h)
  write_result-cases (some j) path cells i = elim (Bool-cases (i == j)) [
    | inl e ↦ inr (ap some (ground (arith, e)), ground (arith, e))
    | inr e ↦ inl (ground (arith, e), λ h. absurd (ground (arith, e, some_inj h)))
  ]

  compile-Written :
      (run : Command → Option Err) (w : Work) (cells : Cells)
      → Written w cells (compile o c run w cells)
  unfolding compile Written
  compile-Written run w cells =
      elim (o.abs w.target)
        as (λ a. Written w cells (elim a as (λ _. Result String × Cells) [
          | err e ↦ (err e, cells)
          | ok cwd ↦ elim (run (command_of o c w cwd)) as (λ _. Result String × Cells) [
            | some e ↦ (err e, cells)
            | none ↦ (ok (path_of o c w), write_result o w.result (path_of o c w) cells)
          ]
        ])) [
          | err e ↦ tt
          | ok cwd ↦
              elim (run (command_of o c w cwd))
                as (λ a. Written w cells (elim a as (λ _. Result String × Cells) [
                  | some e ↦ (err e, cells)
                  | none ↦ (ok (path_of o c w), write_result o w.result (path_of o c w) cells)
                ])) [ some e ↦ tt | none ↦ write_result-cases w.result (path_of o c w) cells ]
        ]

  PathIn : List Work → Cells → Work → Type 0
  PathIn done cells w =
      (i : ℕ)
      → w.result ≡ some i
      → (v : Work) × Memᴰ v done × (v.result ≡ some i) × (cells i ≡ path_of o c v)

  still :
      (w : Work) (cells cells' : Cells)
      → ((i : ℕ)
          → ((cells' i ≡ cells i) × (w.result ≢ some i))
            ⊎ ((w.result ≡ some i) × (cells' i ≡ path_of o c w)))
      → (done ws : List Work) → All (PathIn done cells) ws
      → All (PathIn (done ++ w ∷ []) cells') ws
  unfolding PathIn
  still w cells cells' written done [] h = tt
  still w cells cells' written done (x ∷ ws) h = (
    λ i e. elim (written i) [
      | inl (same, _) ↦ let (v, m, r, p) = h.0 i e in (v, Memᴰ.append_left (w ∷ []) m, r, same ∙ p)
      | inr (r, p) ↦ (w, Memᴰ.append_right done (Memᴰ.head refl), r, p)
    ],
    still w cells cells' written done ws h.1,
  )

  after_compile-HasPaths :
      (s : Pool) (before after : List Worker) (w : Work) (out : Result String × Cells)
      → Written w s.cells out
      → HasPaths s s.done
      → let u = after_compile w before after out s in HasPaths u u.done
  unfolding after_compile Written PathIn
  after_compile-HasPaths s before after w (err e, cells) written h = h
  after_compile-HasPaths s before after w (ok path, cells) written h =
      All-append (PathIn (s.done ++ w ∷ []) cells) s.done (w ∷ [])
        (still w s.cells cells written s.done s.done h)
        (
          λ i e. elim (written i) [
            | inl (_, n) ↦ absurd (n e)
            | inr (r, p) ↦ (w, Memᴰ.append_right s.done (Memᴰ.head refl), r, p)
          ],
          tt,
        )

  Step-HasPaths : {s u : Pool} → Step o c s u → HasPaths s s.done → HasPaths u u.done
  Step-HasPaths (take s before after w q e f) h = h
  Step-HasPaths (take_zero s before after e f g) h = h
  Step-HasPaths (leave s before after e f g) h = h
  Step-HasPaths (finish s before after w run e) h =
      after_compile-HasPaths s before after w (compile o c run w s.cells)
        (compile-Written run w s.cells) h

  pub Steps-HasPaths :
      {s u : Pool} {n : ℕ} → Steps o c s n u → HasPaths s s.done → HasPaths u u.done
  Steps-HasPaths here h = h
  Steps-HasPaths (next r st) h = Step-HasPaths st (Steps-HasPaths r h)
