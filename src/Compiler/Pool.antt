-- ===== src/Compiler/Pool.antt =====
-- The workers of Run as steps (releases/compiler/parallel.go). What cmd.Run answers is open.
use go_o11y.Prelude.{
  ℕ, zero, suc, ◌≡◌, String, Bool, true, false, Option, none, some, List, [], ◌∷◌, ◌++◌, or_else,
}
use go_o11y.Errors.{Err, Result, ok, err}
use go_o11y.Compiler.{Work, Command, Outside, Compiler, Cells, Parallel, compile}

-- A goroutine of Run: in its loop, in Compile, or returned.
pub data Worker : Type 0 where
  ready : Worker
  busy : Work → Worker
  quit : Worker
  failed : Err → Worker

-- The pool while Run waits: `done` has the works that were compiled, in order, and `first` the error
-- that Wait returns in the end.
pub record Pool : Type 0 where
  pub queue : List Work
  pub closed : Bool
  pub workers : List Worker
  pub cells : Cells
  pub done : List Work
  pub first : Option Err

abbrev pub replicate : ℕ → Worker → List Worker
replicate zero w = []
replicate (suc n) w = w ∷ replicate n w

-- Run, when its goroutines have been started.
unfoldable pub started_pool : Cells → Parallel → Pool
started_pool cells t = record {
  queue = t.work;
  closed = t.closed;
  workers = replicate t.parallelism ready;
  cells = cells;
  done = [];
  first = none;
}

abbrev pub zero_work : Work
zero_work = record {
  name = "";
  target = "";
  source = "";
  with_coverage = false;
  tags = "";
  environment = [];
  result = none;
}

-- A worker returns from Compile with a result.
unfoldable pub after_compile :
    Work → List Worker → List Worker → Result String × Cells → Pool → Pool
after_compile w before after (ok path, cells) s = record s {
  workers = before ++ ready ∷ after;
  cells = cells;
  done = s.done ++ w ∷ [];
}
after_compile w before after (err e, cells) s = record s {
  workers = before ++ failed e ∷ after;
  first = or_else s.first (some e);
}

module _ (o : Outside) (c : Compiler) where
  -- A worker takes work, quits when there is none, or finishes. A closed channel without work gives
  -- the zero value.
  pub data Step : Pool → Pool → Type 0 where
    take :
        (s : Pool) (before after : List Worker) (w : Work) (q : List Work)
        → s.workers ≡ before ++ ready ∷ after
        → s.queue ≡ w ∷ q
        → Step s (record s { workers = before ++ busy w ∷ after; queue = q })
    take_zero :
        (s : Pool) (before after : List Worker)
        → s.workers ≡ before ++ ready ∷ after
        → s.queue ≡ []
        → s.closed ≡ true
        → Step s (record s { workers = before ++ busy zero_work ∷ after })
    leave :
        (s : Pool) (before after : List Worker)
        → s.workers ≡ before ++ ready ∷ after
        → s.queue ≡ []
        → s.closed ≡ false
        → Step s (record s { workers = before ++ quit ∷ after })
    finish :
        (s : Pool) (before after : List Worker) (w : Work) (run : Command → Option Err)
        → s.workers ≡ before ++ busy w ∷ after
        → Step s (after_compile w before after (compile o c run w s.cells) s)

  -- A number of steps.
  pub data Steps (s : Pool) : ℕ → Pool → Type 0 where
    here : Steps s 0 s
    next : {n : ℕ} {t u : Pool} → Steps s n t → Step t u → Steps s (suc n) u
