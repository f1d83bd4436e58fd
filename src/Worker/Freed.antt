-- ===== src/Worker/Freed.antt =====
-- The batches whose lists the completion thread unmaps and frees.
use dsa_test.Base.{
  times, ℕ, zero, suc, ◌+◌, ◌≤◌, ◌≡◌, ◌==◌, refl, ap, sym, true, Option, none, some, List, [], ◌∷◌,
  ◌++◌, arith, if◌then◌else◌,
}
use dsa_test.Worker.Inv.{left, is_back, Inv, start-Inv, run-Inv}
use dsa_test.Worker.{
  Entry, ThreadAt, asleep, outer, inner, scan, tail, idle, stopped, MainAt, submit, wake,
  wait_wakeup, clear, wait_status, returned, stopping, exited, World, Actor, thread, main, engine,
  Part, in_seen, in_todo, in_late, report, visit, scan_step, thread_step_at, free_batch,
  main_step_at, engine_step, append, submitted, step, run, start,
}

-- Whether an entry has batch `b`, as a number
abbrev pub has_batch : ℕ → Option ℕ → ℕ
has_batch b none = 0
has_batch b (some c) = if c == b then 1 else 0

-- How many entries with batch `b` the thread has yet to count.
abbrev pub pending : ℕ → List Entry → ℕ
pending b [] = 0
pending b (e ∷ es) = (if e.completion then 0 else has_batch b e.batch_info) + pending b es

-- How many of the first `k` entries have batch `b`.
abbrev pub uses : ℕ → (ℕ → Option ℕ) → ℕ → ℕ
uses b batches zero = 0
uses b batches (suc k) = has_batch b (batches k) + uses b batches k

pending-append : (b : ℕ) (xs ys : List Entry) → pending b (xs ++ ys) ≡ pending b xs + pending b ys
pending-append b [] ys = omega arith
pending-append b (x ∷ xs) ys = omega (arith, pending-append b xs ys)

pending-report : (b i st : ℕ) (es : List Entry) → pending b (report i st es) ≡ pending b es
unfolding report
pending-report b i st [] = refl
pending-report b zero st (e ∷ es) = ground arith
pending-report b (suc i) st (e ∷ es) = omega (arith, pending-report b i st es)

times-free_batch :
    (b : ℕ) (o : Option ℕ) (freed : List ℕ)
    → times (free_batch o freed) b ≡ has_batch b o + times freed b
unfolding free_batch
times-free_batch b none freed = omega arith
times-free_batch b (some c) freed = ground arith

-- Batch `b` is either freed, or on the list, or still to come.
record Accounted (b n : ℕ) (batches : ℕ → Option ℕ) (s : World) : Type 0 where
  same : s.batch_of ≡ batches
  balance :
      times s.freed b
        + pending b s.seen
        + pending b s.todo
        + pending b s.late
        + uses b batches (left s.main_at)
      ≡ uses b batches n

module _ (b n : ℕ) (batches : ℕ → Option ℕ) where
  start-Accounted : (total : ℕ) → Accounted b n batches (start batches total n)
  unfolding start
  start-Accounted total = record { same = refl; balance = omega arith }

  engine_step-Accounted :
      (p : Part) (i st : ℕ) {s : World}
      → Accounted b n batches s
      → Accounted b n batches (engine_step p i st s)
  unfolding engine_step
  engine_step-Accounted in_seen i st {s} v = ground (arith, pending-report b i st s.seen)
  engine_step-Accounted in_todo i st {s} v = ground (arith, pending-report b i st s.todo)
  engine_step-Accounted in_late i st {s} v = ground (arith, pending-report b i st s.late)

  append-Accounted :
      (o : Option ℕ) (ts : List Entry) (k : ℕ) {s : World}
      → batches k ≡ o
      → s.todo ≡ ts
      → s.main_at ≡ submit (suc k)
      → Accounted b n batches s
      → Accounted b n batches (append (submitted o) ts (record s { main_at = wake k }))
  unfolding append
  append-Accounted o [] k {s} q e m v = ground (arith, pending-append b s.late (submitted o ∷ []))
  append-Accounted o (t ∷ ts) k {s} q e m v =
      ground (arith, pending-append b (t ∷ ts) (submitted o ∷ []))

  main_step_at-Accounted :
      (m : MainAt) {s : World}
      → s.main_at ≡ m
      → Accounted b n batches s
      → Accounted b n batches (main_step_at m s)
  unfolding main_step_at
  main_step_at-Accounted (submit zero) e v = ground arith
  main_step_at-Accounted (submit (suc k)) {s} e v =
      append-Accounted (s.batch_of k) s.todo k (ap (λ f. f k) (sym v.same)) refl e v
  main_step_at-Accounted (wake k) e v = ground arith
  main_step_at-Accounted wait_wakeup e v = ground arith
  main_step_at-Accounted clear e v = ground arith
  main_step_at-Accounted wait_status e v = ground arith
  main_step_at-Accounted returned e v = ground arith
  main_step_at-Accounted stopping e v = ground arith
  main_step_at-Accounted exited e v = ground arith

  scan_step-Accounted :
      (es : List Entry) {s : World}
      → s.todo ≡ es
      → s.thread_at ≡ scan
      → Accounted b n batches s
      → Accounted b n batches (scan_step es s)
  unfolding scan_step visit
  scan_step-Accounted [] {s} e t v = ground (arith, pending-append b s.seen s.late)
  scan_step-Accounted (x ∷ es) {s} e t v = ground (
    arith,
    pending-append b s.seen (x ∷ []),
    pending-append b s.seen (record x { completion = true } ∷ []),
    times-free_batch b x.batch_info s.freed,
  )

  thread_step_at-Accounted :
      (t : ThreadAt) {s : World}
      → s.thread_at ≡ t
      → Accounted b n batches s
      → Accounted b n batches (thread_step_at t s)
  unfolding thread_step_at
  thread_step_at-Accounted asleep e v = ground arith
  thread_step_at-Accounted outer e v = ground arith
  thread_step_at-Accounted inner {s} e v =
      ground (arith, pending-append b s.seen (s.todo ++ s.late), pending-append b s.todo s.late)
  thread_step_at-Accounted scan {s} e v = scan_step-Accounted s.todo refl e v
  thread_step_at-Accounted tail e v = ground arith
  thread_step_at-Accounted idle e v = ground arith
  thread_step_at-Accounted stopped e v = ground arith

  step-Accounted :
      (a : Actor) {s : World} → Accounted b n batches s → Accounted b n batches (step s a)
  unfolding step
  step-Accounted thread v = thread_step_at-Accounted _ refl v
  step-Accounted main v = main_step_at-Accounted _ refl v
  step-Accounted (engine p i st) v = engine_step-Accounted p i st v

  run-Accounted :
      (actors : List Actor) {s : World}
      → Accounted b n batches s
      → Accounted b n batches (run s actors)
  unfolding run
  run-Accounted [] v = v
  run-Accounted (a ∷ actors) v = run-Accounted actors (step-Accounted a v)

-- In every interleaving, the thread has freed a batch at most as often as there are entries with it
-- among those to submit: none is freed twice when each entry has a batch of its own.
pub batch_freed_once :
    (batches : ℕ → Option ℕ) (total n : ℕ) (schedule : List Actor) (b : ℕ)
    → times (run (start batches total n) schedule).freed b ≤ uses b batches n
batch_freed_once batches total n schedule b =
    let v = run-Accounted b n batches schedule (start-Accounted b n batches total) in
    omega (arith, v.balance)

nothing_left :
    {b n : ℕ} {batches : ℕ → Option ℕ} {s : World}
    → Inv n s
    → Accounted b n batches s
    → is_back s.main_at ≡ true
    → times s.freed b ≡ uses b batches n
nothing_left v a back = ground arith

-- In every interleaving in which `dsa_copy` is past its wait, the thread has unmapped and freed every
-- batch exactly as often as there are entries with it among those submitted: once, when each entry
-- has a batch of its own.
pub batches_freed :
    (batches : ℕ → Option ℕ) (total n : ℕ) (schedule : List Actor) (b : ℕ)
    → is_back (run (start batches total n) schedule).main_at ≡ true
    → times (run (start batches total n) schedule).freed b ≡ uses b batches n
batches_freed batches total n schedule b back =
    nothing_left (run-Inv schedule (start-Inv batches total n))
      (run-Accounted b n batches schedule (start-Accounted b n batches total)) back
