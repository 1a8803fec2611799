-- ===== src/Compiler/Ends.antt =====
-- Run ends, and has compiled everything unless a compilation failed (releases/compiler/parallel.go).
use go_o11y.Prelude.{
  ℕ, zero, suc, ◌+◌, ◌*◌, ◌≤◌, ◌<◌, ◌≡◌, ◌≢◌, Option-cases, refl, ap, ◌⊎◌, inl, inr, arith, String,
  Bool, true, false, Option, none, some, List, [], ◌∷◌, ◌++◌, length, or_else,
}
use go_o11y.Errors.{Err, Result, ok, err}
use go_o11y.Compiler.{Work, Outside, Compiler, Cells, Parallel, compile}
use go_o11y.Compiler.Paths.{HasPaths, Steps-HasPaths}
use go_o11y.Compiler.Pool.{
  Pool, Worker, ready, busy, quit, failed, Step, take, take_zero, leave, finish, Steps, here, next,
  started_pool, after_compile, replicate,
}

module _ {A : Type 0} (weight : A → ℕ) where
  abbrev pub total : List A → ℕ
  total [] = 0
  total (x ∷ xs) = weight x + total xs

  total-append : (xs ys : List A) → total (xs ++ ys) ≡ total xs + total ys
  total-append [] ys = omega arith
  total-append (x ∷ xs) ys = omega (arith, total-append xs ys)

  total-middle : (xs ys : List A) (x : A) → total (xs ++ x ∷ ys) ≡ total xs + weight x + total ys
  total-middle [] ys x = omega arith
  total-middle (y ∷ xs) ys x = omega (arith, total-middle xs ys x)

-- How much a worker has to do, at most, but for the queue.
abbrev left : Worker → ℕ
left ready = 1
left (busy w) = 2
left quit = 0
left (failed e) = 0

abbrev pub active : Worker → ℕ
active ready = 1
active (busy w) = 1
active quit = 0
active (failed e) = 0

abbrev has_quit : Worker → ℕ
has_quit ready = 0
has_quit (busy w) = 0
has_quit quit = 1
has_quit (failed e) = 0

abbrev has_failed : Worker → ℕ
has_failed ready = 0
has_failed (busy w) = 0
has_failed quit = 0
has_failed (failed e) = 1

abbrev any : Worker → ℕ
any w = 1

-- How many works pass a test.
abbrev pub one_if : Bool → ℕ
one_if true = 1
one_if false = 0

abbrev in_hand : (Work → Bool) → Worker → ℕ
in_hand f ready = 0
in_hand f (busy w) = one_if (f w)
in_hand f quit = 0
in_hand f (failed e) = 0

abbrev pub count : (Work → Bool) → List Work → ℕ
count f = total (λ w. one_if (f w))

abbrev to_do : Pool → ℕ
to_do s = 2 * length s.queue + total left s.workers

-- What one worker's change does to a sum.
total-changed :
    (weight : Worker → ℕ) (ws before after : List Worker) (x y : Worker)
    → ws ≡ before ++ x ∷ after
    → total weight (before ++ y ∷ after) + weight x ≡ total weight ws + weight y
total-changed weight ws before after x y e = omega (
  arith,
  ap (total weight) e,
  total-middle weight before after x,
  total-middle weight before after y,
)

module _ (o : Outside) (c : Compiler) where
  after_compile-to_do :
      (s : Pool) (before after : List Worker) (w : Work) (out : Result String × Cells)
      → s.workers ≡ before ++ busy w ∷ after
      → suc (to_do (after_compile w before after out s)) ≤ to_do s
  unfolding after_compile
  after_compile-to_do s before after w (ok path, cells) e =
      omega (arith, total-changed left s.workers before after (busy w) ready e)
  after_compile-to_do s before after w (err f, cells) e =
      omega (arith, total-changed left s.workers before after (busy w) (failed f) e)

  Step-to_do : {s t : Pool} → Step o c s t → s.closed ≡ false → suc (to_do t) ≤ to_do s
  Step-to_do (take s before after w q e f) g =
      omega (arith, total-changed left s.workers before after ready (busy w) e, ap length f)
  Step-to_do (take_zero s before after e f h) g = absurd (cc (g, h))
  Step-to_do (leave s before after e f h) g =
      omega (arith, total-changed left s.workers before after ready quit e)
  Step-to_do (finish s before after w run e) g =
      after_compile-to_do s before after w (compile o c run w s.cells) e

  -- What every step keeps: the number of workers; that none quits while there is work; and, if no
  -- compilation has failed, that no work is lost.
  record Kept (t : Parallel) (s : Pool) : Type 0 where
    open_still : s.closed ≡ false
    alive : total any s.workers ≡ t.parallelism
    drained : 0 < total has_quit s.workers → s.queue ≡ []
    clean : s.first ≡ none → total has_failed s.workers ≡ 0
    conserved :
        s.first ≡ none
        → (f : Work → Bool)
        → count f s.done + total (in_hand f) s.workers + count f s.queue ≡ count f t.work

  after_compile-Kept :
      (t : Parallel) (s : Pool) (before after : List Worker) (w : Work)
      (out : Result String × Cells)
      → s.workers ≡ before ++ busy w ∷ after
      → Kept t s
      → Kept t (after_compile w before after out s)
  unfolding after_compile
  after_compile-Kept t s before after w (ok path, cells) e k = record {
    open_still = k.open_still;
    alive = omega (arith, total-changed any s.workers before after (busy w) ready e, k.alive);
    drained = λ h.
        k.drained
          (omega (arith, total-changed has_quit s.workers before after (busy w) ready e, h));
    clean = λ h.
        omega (arith, total-changed has_failed s.workers before after (busy w) ready e, k.clean h);
    conserved = λ h f. omega (
      arith,
      total-changed (in_hand f) s.workers before after (busy w) ready e,
      k.conserved h f,
      total-append (λ v. one_if (f v)) s.done (w ∷ []),
    );
  }
  after_compile-Kept t s before after w (err g, cells) e k = record {
    open_still = k.open_still;
    alive = omega (arith, total-changed any s.workers before after (busy w) (failed g) e, k.alive);
    drained = λ h.
        k.drained
          (omega (arith, total-changed has_quit s.workers before after (busy w) (failed g) e, h));
    clean = λ h. absurd (is_kept s.first h);
    conserved = λ h f. absurd (is_kept s.first h);
  }
    where
      is_kept : (first : Option Err) → or_else first (some g) ≡ none → ⊥
      is_kept none h = cc h
      is_kept (some x) h = cc h

  Step-Kept : (t : Parallel) {s u : Pool} → Step o c s u → Kept t s → Kept t u
  Step-Kept t (take s before after w q e f) k = record {
    open_still = k.open_still;
    alive = omega (arith, total-changed any s.workers before after ready (busy w) e, k.alive);
    drained = λ h. absurd (
        no_work (
          k.drained
            (omega (arith, total-changed has_quit s.workers before after ready (busy w) e, h))));
    clean = λ h.
        omega (arith, total-changed has_failed s.workers before after ready (busy w) e, k.clean h);
    conserved = λ h p. omega (
      arith,
      total-changed (in_hand p) s.workers before after ready (busy w) e,
      k.conserved h p,
      ap (count p) f,
    );
  }
    where
      no_work : s.queue ≡ [] → ⊥
      no_work g = cc (f, g)
  Step-Kept t (take_zero s before after e f h) k = absurd (cc (k.open_still, h))
  Step-Kept t (leave s before after e f g) k = record {
    open_still = k.open_still;
    alive = omega (arith, total-changed any s.workers before after ready quit e, k.alive);
    drained = λ h. f;
    clean =
        λ h. omega (arith, total-changed has_failed s.workers before after ready quit e, k.clean h);
    conserved = λ h p.
        omega
          (arith, total-changed (in_hand p) s.workers before after ready quit e, k.conserved h p);
  }
  Step-Kept t (finish s before after w run e) k =
      after_compile-Kept t s before after w (compile o c run w s.cells) e k

  total-replicate :
      (weight : Worker → ℕ) (n : ℕ) → total weight (replicate n ready) ≡ n * weight ready
  total-replicate weight zero = omega arith
  total-replicate weight (suc n) = grind (arith, total-replicate weight n)

  started_pool-Kept :
      (t : Parallel) (cells : Cells) → t.closed ≡ false → Kept t (started_pool cells t)
  unfolding started_pool
  started_pool-Kept t cells h = record {
    open_still = h;
    alive = omega (arith, total-replicate any t.parallelism);
    drained = λ z. absurd (omega (arith, total-replicate has_quit t.parallelism, z));
    clean = λ z. omega (arith, total-replicate has_failed t.parallelism);
    conserved = λ z f. omega (arith, total-replicate (in_hand f) t.parallelism);
  }

  -- A worker that has not returned stands somewhere.
  Working : List Worker → Worker → Type 0
  Working ws x = (before after : List Worker) × (ws ≡ before ++ x ∷ after)

  further : (y : Worker) (ws : List Worker) (x : Worker) → Working ws x → Working (y ∷ ws) x
  unfolding Working
  further y ws x (before, after, e) = (y ∷ before, after, ap (λ l. y ∷ l) e)

  find_active :
      (ws : List Worker)
      → 0 < total active ws
      → Working ws ready ⊎ ((w : Work) × Working ws (busy w))
  unfolding Working
  find_active [] h = absurd (omega (arith, h))
  find_active (ready ∷ ws) h = inl ([], ws, refl)
  find_active (busy w ∷ ws) h = inr (w, ([], ws, refl))
  find_active (quit ∷ ws) h = elim (find_active ws (omega (arith, h))) [
    | inl x ↦ inl (further quit ws ready x)
    | inr (w, x) ↦ inr (w, further quit ws (busy w) x)
  ]
  find_active (failed e ∷ ws) h = elim (find_active ws (omega (arith, h))) [
    | inl x ↦ inl (further (failed e) ws ready x)
    | inr (w, x) ↦ inr (w, further (failed e) ws (busy w) x)
  ]

  queue_cases : (q : List Work) → (q ≡ []) ⊎ ((w : Work) × (q' : List Work) × (q ≡ w ∷ q'))
  queue_cases [] = inl refl
  queue_cases (w ∷ q) = inr (w, q, refl)

  Step-next : (s : Pool) → s.closed ≡ false → 0 < total active s.workers → (u : Pool) × Step o c s u
  unfolding Working
  Step-next s g h = elim (find_active s.workers h) [
    | inr (w, (before, after, e)) ↦ (_, finish s before after w (λ k. none) e)
    | inl (before, after, e) ↦ elim (queue_cases s.queue) [
      | inl f ↦ (_, leave s before after e f g)
      | inr (w, q, f) ↦ (_, take s before after w q e f)
    ]
  ]

  all_returned :
      (ws : List Worker)
      → total active ws ≡ 0
      → (total any ws ≡ total has_quit ws + total has_failed ws)
        × ((f : Work → Bool) → total (in_hand f) ws ≡ 0)
  all_returned [] h = (refl, λ f. refl)
  all_returned (ready ∷ ws) h = absurd (omega (arith, h))
  all_returned (busy w ∷ ws) h = absurd (omega (arith, h))
  all_returned (quit ∷ ws) h =
      let (a, b) = all_returned ws (omega (arith, h)) in (omega (arith, a), λ f. omega (arith, b f))
  all_returned (failed e ∷ ws) h =
      let (a, b) = all_returned ws (omega (arith, h)) in (omega (arith, a), λ f. omega (arith, b f))

  Steps-Kept :
      (t : Parallel) {s u : Pool} {n : ℕ}
      → Steps o c s n u
      → Kept t s
      → Kept t u × (n + to_do u ≤ to_do s)
  Steps-Kept t here k = (k, omega arith)
  Steps-Kept t (next r st) k =
      let (k', le) = Steps-Kept t r k in
      (Step-Kept t st k', omega (arith, le, Step-to_do st k'.open_still))

  -- The channel stays open.
  pub Steps-open :
      (t : Parallel) (cells : Cells) {n : ℕ} {u : Pool}
      → t.closed ≡ false
      → Steps o c (started_pool cells t) n u
      → u.closed ≡ false
  Steps-open t cells h steps = (Steps-Kept t steps (started_pool-Kept t cells h)).0.open_still

  -- Run, whatever the compilations answer, and in whatever order the goroutines go on. It takes at
  -- most two steps for each work that was added and one for each goroutine. As long as one of them
  -- has not returned, there is a step. When all have returned, then either a compilation failed, and
  -- Wait returns an error, or each work was compiled as often as it was added; and each result of a
  -- compiled work points to the path of a work with that result. This is before Cleanup.
  pub run-Ends :
      (t : Parallel) (cells : Cells)
      → t.closed ≡ false
      → 0 < t.parallelism
      → {n : ℕ} {u : Pool} → Steps o c (started_pool cells t) n u
      → (n ≤ 2 * length t.work + t.parallelism)
        × (0 < total active u.workers → (v : Pool) × Step o c u v)
        × (total active u.workers ≡ 0
            → (u.first ≢ none) ⊎ ((f : Work → Bool) → count f u.done ≡ count f t.work))
        × HasPaths o c u u.done
  unfolding started_pool
  run-Ends t cells h p {n} {u} steps =
      let (k, le) = Steps-Kept t steps (started_pool-Kept t cells h) in
      (
        omega (arith, le, total-replicate left t.parallelism),
        Step-next u k.open_still,
        λ e. elim (Option-cases u.first) [
          | inr (f, q) ↦ inl (λ z. cc (q, z))
          | inl q ↦
              let (whole, none_left) = all_returned u.workers e in
              let empty = k.drained (omega (arith, whole, k.alive, k.clean q, p)) in
              inr (λ f. omega (arith, k.conserved q f, none_left f, ap (count f) empty))
        ],
        Steps-HasPaths o c steps tt,
      )
