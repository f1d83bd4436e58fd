-- ===== src/Worker/Hang.antt =====
-- A run in which `dsa_copy` never comes back, whatever the number of entries.
use dsa_test.Base.{
  Option, ℕ, zero, suc, ◌+◌, ◌<◌, ◌≡◌, refl, true, false, List, [], ◌∷◌, ◌++◌, arith, length,
  length-append, append-nil,
}
use dsa_test.Worker.Inv.{is_back}
use dsa_test.Worker.Drain.{run-append}
use dsa_test.Worker.Stuck.{IsStuck, run-IsStuck}
use dsa_test.Worker.{
  Entry, asleep, scan, submit, wait_wakeup, World, Actor, thread, main, engine, in_todo, append,
  report, visit, scan_step, thread_step_at, main_step_at, thread_step, main_step, engine_step, step,
  run, start, submitted,
}

-- Neither counted nor reported.
abbrev AllFresh : List Entry → Type 0
AllFresh [] = Unit {0}
AllFresh (e ∷ es) = (e.completion ≡ false) × (e.status ≡ 0) × AllFresh es

AllFresh-snoc : (b : Option ℕ) (es : List Entry) → AllFresh es → AllFresh (es ++ submitted b ∷ [])
AllFresh-snoc b [] h = (refl, refl, tt)
AllFresh-snoc b (e ∷ es) (a, c, h) = (a, c, AllFresh-snoc b es h)

-- The thread is asleep while `k` entries of `n` are left to submit.
record IsFilling (n k : ℕ) (s : World) : Type 0 where
  main_at : s.main_at ≡ submit k
  thread_at : s.thread_at ≡ asleep
  seen : s.seen ≡ []
  todo : s.todo ≡ []
  fresh : AllFresh s.late
  count : length s.late + k ≡ n
  started : 0 < length s.late → s.thread_execution ≡ true
  none_counted : s.poll_entry ≡ 0
  total : s.total_entries ≡ n
  status : s.completion_status ≡ 0
  no_stop : s.should_stop ≡ false

-- The thread is in its first pass, and `dsa_copy` has submitted everything.
record IsScanning (s : World) : Type 0 where
  main_at : s.main_at ≡ wait_wakeup
  thread_at : s.thread_at ≡ scan
  late : s.late ≡ []
  fresh : AllFresh s.todo
  count : s.poll_entry + length s.todo ≡ s.total_entries
  holds : 0 < length s.seen + length s.todo
  started : s.thread_execution ≡ true
  status : s.completion_status ≡ 0
  no_stop : s.should_stop ≡ false

fill_one : (n k : ℕ) {s : World} → IsFilling n (suc k) s → IsFilling n k (step (step s main) main)
unfolding step main_step main_step_at append
fill_one n k {s} v = ground (
  arith,
  AllFresh-snoc (s.batch_of k) s.late v.fresh,
  length-append s.late (submitted (s.batch_of k) ∷ []),
)

scan_one :
    (e : Entry) (es : List Entry) {s : World}
    → s.todo ≡ e ∷ es
    → IsScanning s
    → let s' = step (step s (engine in_todo 0 1)) thread in (s'.todo ≡ es) × IsScanning s'
unfolding step engine_step report thread_step thread_step_at scan_step visit
scan_one e es {s} l v =
    ground (arith, length-append s.seen (record e { completion = true; status = 1 } ∷ []))

scan_end : {s : World} → s.todo ≡ [] → IsScanning s → IsStuck (step s thread)
unfolding step thread_step thread_step_at scan_step
scan_end {s} l v = ground (arith, append-nil s.seen)

scan_rest :
    (es : List Entry) {s : World}
    → s.todo ≡ es
    → IsScanning s
    → (schedule : List Actor) × IsStuck (run s schedule)
unfolding run
scan_rest [] l v = (thread ∷ [], scan_end l v)
scan_rest (e ∷ es) l v =
    let (l', v') = scan_one e es l v in
    let (schedule, stuck) = scan_rest es l' v' in (engine in_todo 0 1 ∷ thread ∷ schedule, stuck)

-- The last main step of the submissions, and how the thread starts its first pass.
wake_up :
    (n : ℕ) {s : World}
    → 0 < n
    → IsFilling n 0 s
    → IsScanning (step (step (step (step s main) thread) thread) thread)
unfolding step main_step main_step_at thread_step thread_step_at
wake_up n h v = ground arith

fill_rest :
    (n k : ℕ) {s : World}
    → 0 < n
    → IsFilling n k s
    → (schedule : List Actor) × IsStuck (run s schedule)
unfolding run
fill_rest n zero {s} h v =
    let (schedule, stuck) = scan_rest _ refl (wake_up n h v) in
    (main ∷ thread ∷ thread ∷ thread ∷ schedule, stuck)
fill_rest n (suc k) h v =
    let (schedule, stuck) = fill_rest n k h (fill_one n k v) in (main ∷ main ∷ schedule, stuck)

start-IsFilling : (batches : ℕ → Option ℕ) (n : ℕ) → IsFilling n n (start batches n n)
unfolding start
start-IsFilling batches n = record {
  main_at = refl;
  thread_at = refl;
  seen = refl;
  todo = refl;
  fresh = tt;
  count = omega arith;
  started = λ h. absurd (omega arith);
  none_counted = refl;
  total = refl;
  status = refl;
  no_stop = refl;
}

-- For every positive number of entries, which is also `total_entries`, there is a schedule of the
-- thread, `dsa_copy` and the engine after which `dsa_copy` never comes back from its wait, whatever
-- they all do next.
pub hang_reachable :
    (batches : ℕ → Option ℕ) (n : ℕ)
    → 0 < n
    → (schedule : List Actor) × ((later : List Actor)
        → is_back (run (start batches n n) (schedule ++ later)).main_at ≡ false)
hang_reachable batches n h =
    let (schedule, stuck) = fill_rest n n h (start-IsFilling batches n) in
    (
      schedule,
      λ later.
          let v = run-IsStuck later stuck in
          rw (run-append (start batches n n) schedule later) (ground arith),
    )
