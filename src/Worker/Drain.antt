-- ===== src/Worker/Drain.antt =====
-- The completion thread ends its work when `dsa_copy` has cleared `thread_execution` before the last
-- entry was counted.
use dsa_test.Base.{ℕ, zero, suc, ◌≡◌, ◌≢◌, refl, true, false, List, [], ◌∷◌, ◌++◌, ◌⊎◌}
use dsa_test.Worker.{Entry, World, Actor, thread, step, run}

-- The engine has reported on every entry, or the thread has counted it already.
abbrev pub AllReported : List Entry → Type 0
AllReported [] = Unit {0}
AllReported (e ∷ es) = ((e.completion ≡ true) ⊎ (e.status ≢ 0)) × AllReported es

pub record IsDraining (s : World) : Type 0 where
  pub cleared : s.thread_execution ≡ false
  pub no_stop : s.should_stop ≡ false
  pub seen : s.seen ≡ []
  pub late : s.late ≡ []
  pub reported : AllReported s.todo

pub threads : ℕ → List Actor
threads zero = []
threads (suc n) = thread ∷ threads n

pub run-append : (s : World) (xs ys : List Actor) → run s (xs ++ ys) ≡ run (run s xs) ys
unfolding run
run-append s [] ys = refl
run-append s (x ∷ xs) ys = run-append (step s x) xs ys
