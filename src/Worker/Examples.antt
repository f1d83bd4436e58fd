-- ===== src/Worker/Examples.antt =====
-- Runs of the thread, `dsa_copy` and the engine.
use dsa_test.Base.{times, some, ℕ, Option, none, ◌++◌, arith, ◌≡◌, refl, true, false, List, [], ◌∷◌}
use dsa_test.Worker.{
  World, Actor, thread, main, engine, in_late, inner, wait_status, run, start, step, thread_step,
  main_step, engine_step,
}
use dsa_test.Worker.Inv.{is_back, Finished, copy_waits_for_all}
use dsa_test.Worker.Freed.{uses, batches_freed}
use dsa_test.Worker.Hang.{hang_reachable}
use dsa_test.Worker.Refine.{Advances, progress, untouched, run_refines}

abbrev no_batches : ℕ → Option ℕ
no_batches k = none

-- One entry, submitted before the thread wakes up, which the engine completes.
abbrev one_copy : List Actor
one_copy =
    main
    ∷ main
    ∷ main
    ∷ engine in_late 0 1
    ∷ thread
    ∷ main
    ∷ main
    ∷ thread
    ∷ thread
    ∷ thread
    ∷ thread
    ∷ thread
    ∷ thread
    ∷ main
    ∷ []

copy_waits_for_all_example : Finished 1 (run (start no_batches 1 1) one_copy)
unfolding run start step thread_step main_step engine_step
copy_waits_for_all_example = copy_waits_for_all no_batches 1 1 one_copy refl

-- The batch of that entry.
abbrev one_batch : ℕ → Option ℕ
one_batch k = some 7

batches_freed_example : times (run (start one_batch 1 1) one_copy).freed 7 ≡ uses 7 one_batch 1
unfolding run start step thread_step main_step engine_step
batches_freed_example = batches_freed one_batch 1 1 one_copy 7 refl

hang_reachable_example :
    (schedule : List Actor) × ((later : List Actor)
      → is_back (run (start no_batches 2 2) (schedule ++ later)).main_at ≡ false)
hang_reachable_example = hang_reachable no_batches 2 (omega arith)

run_refines_example : Advances (untouched 1) (progress (run (start no_batches 1 1) one_copy))
run_refines_example = run_refines no_batches 1 1 one_copy

-- Two entries reported, with `thread_execution` cleared.
abbrev two_reported : World
two_reported = record (start no_batches 2 0) {
  thread_wakeup = true;
  todo =
      record { batch_info = none; completion = false; status = 1 }
      ∷ record { batch_info = none; completion = false; status = 3 }
      ∷ [];
  thread_at = inner;
  main_at = wait_status;
}
