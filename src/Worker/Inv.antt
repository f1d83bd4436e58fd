-- ===== src/Worker/Inv.antt =====
-- What holds of the completion thread and `dsa_copy` in every interleaving.
use dsa_test.Base.{
  Option, ℕ, zero, suc, ◌+◌, ◌≡◌, ◌≢◌, refl, Bool, true, false, List, [], ◌∷◌, ◌++◌, arith,
  if◌then◌else◌, ◌↔◌,
}
use dsa_test.Worker.{
  Entry, ThreadAt, asleep, outer, inner, scan, tail, idle, stopped, MainAt, submit, wake,
  wait_wakeup, clear, wait_status, returned, stopping, exited, World, Actor, thread, main, engine,
  Part, in_seen, in_todo, in_late, idxd_desc_lists, is_empty, report, scan_step, thread_step_at,
  main_step_at, engine_step, append, submitted, step, run, start,
}

-- Entries that the thread has not counted yet.
abbrev pub undone : List Entry → ℕ
undone [] = 0
undone (e ∷ es) = (if e.completion then 0 else 1) + undone es

pub undone-append : (xs ys : List Entry) → undone (xs ++ ys) ≡ undone xs + undone ys
undone-append [] ys = omega arith
undone-append (x ∷ xs) ys = omega (arith, undone-append xs ys)

pub undone-report : (i st : ℕ) (es : List Entry) → undone (report i st es) ≡ undone es
unfolding report
undone-report i st [] = refl
undone-report zero st (e ∷ es) = ground arith
undone-report (suc i) st (e ∷ es) = omega (arith, undone-report i st es)

-- Entries that `dsa_copy` has still to submit.
abbrev pub left : MainAt → ℕ
left (submit n) = n
left (wake n) = n
left _ = 0

-- `dsa_copy` is past `thread_execution = false`.
abbrev pub is_past : MainAt → Bool
is_past wait_status = true
is_past returned = true
is_past stopping = true
is_past exited = true
is_past _ = false

-- `dsa_copy` is past its wait.
abbrev pub is_back : MainAt → Bool
is_back returned = true
is_back stopping = true
is_back exited = true
is_back _ = false

abbrev is_asleep : ThreadAt → Bool
is_asleep asleep = true
is_asleep _ = false

pub record Inv (n : ℕ) (s : World) : Type 0 where
  pub counted : undone s.seen + undone s.todo + undone s.late + s.poll_entry + left s.main_at ≡ n
  pub past : is_past s.main_at ≡ true → s.thread_execution ≡ false
  pub awake : is_asleep s.thread_at ≡ false → s.thread_execution ≡ false → is_past s.main_at ≡ true
  pub sleeping :
      is_asleep s.thread_at ≡ true → (s.completion_status ≡ 0) × (is_past s.main_at ≡ false)
  pub woken : s.thread_wakeup ≡ true → is_asleep s.thread_at ≡ false
  pub cleared : s.main_at ≡ clear → is_asleep s.thread_at ≡ false
  pub emptied :
      s.completion_status ≢ 0
      → (s.seen ≡ [])
        × (s.todo ≡ [])
        × (s.late ≡ [])
        × (is_past s.main_at ≡ true)
        × (s.completion_status ≡ (if s.completion_error then 2 else 1))
  pub back : is_back s.main_at ≡ true → s.completion_status ≢ 0
  pub stop : s.should_stop ≡ true → is_back s.main_at ≡ true
  pub errors : s.completion_error ≡ false → s.printed ≡ []
  pub no_errors : s.completion_error ≡ true → s.printed ≢ []

pub start-Inv : (batches : ℕ → Option ℕ) (total n : ℕ) → Inv n (start batches total n)
unfolding start
start-Inv batches total n = ground arith

engine_step-Inv : (p : Part) (i st : ℕ) {n : ℕ} {s : World} → Inv n s → Inv n (engine_step p i st s)
unfolding engine_step
engine_step-Inv in_seen i st {n} {s} v = ground (arith, undone-report i st s.seen)
engine_step-Inv in_todo i st {n} {s} v = ground (arith, undone-report i st s.todo)
engine_step-Inv in_late i st {n} {s} v = ground (arith, undone-report i st s.late)

append-Inv :
    (b : Option ℕ) (ts : List Entry) (k : ℕ) {n : ℕ} {s : World}
    → s.todo ≡ ts
    → s.main_at ≡ submit (suc k)
    → Inv n s
    → Inv n (append (submitted b) ts (record s { main_at = wake k }))
unfolding append
append-Inv b [] k {n} {s} e m v = ground (arith, undone-append s.late (submitted b ∷ []))
append-Inv b (t ∷ ts) k {n} {s} e m v = ground (arith, undone-append (t ∷ ts) (submitted b ∷ []))

main_step_at-Inv :
    (m : MainAt) {n : ℕ} {s : World} → s.main_at ≡ m → Inv n s → Inv n (main_step_at m s)
unfolding main_step_at
main_step_at-Inv (submit zero) e v = ground arith
main_step_at-Inv (submit (suc k)) {n} {s} e v = append-Inv (s.batch_of k) s.todo k refl e v
main_step_at-Inv (wake k) e v = ground arith
main_step_at-Inv wait_wakeup e v = ground arith
main_step_at-Inv clear e v = ground arith
main_step_at-Inv wait_status e v = ground arith
main_step_at-Inv returned e v = ground arith
main_step_at-Inv stopping e v = ground arith
main_step_at-Inv exited e v = ground arith

pub is_empty-append :
    (xs ys zs : List Entry) → is_empty (xs ++ (ys ++ zs)) ≡ true → (xs ≡ []) × (ys ≡ []) × (zs ≡ [])
is_empty-append [] [] [] h = (refl, refl, refl)
is_empty-append [] [] (z ∷ zs) h = cc
is_empty-append [] (y ∷ ys) zs h = cc
is_empty-append (x ∷ xs) ys zs h = cc

scan_step-Inv :
    (es : List Entry) {n : ℕ} {s : World}
    → s.todo ≡ es
    → s.thread_at ≡ scan
    → Inv n s
    → Inv n (scan_step es s)
unfolding scan_step
scan_step-Inv [] {n} {s} e t v = ground (arith, undone-append s.seen s.late)
scan_step-Inv (x ∷ es) {n} {s} e t v = ground (
  arith,
  undone-append s.seen (x ∷ []),
  undone-append s.seen (record x { completion = true } ∷ []),
)

thread_step_at-Inv :
    (t : ThreadAt) {n : ℕ} {s : World} → s.thread_at ≡ t → Inv n s → Inv n (thread_step_at t s)
unfolding thread_step_at
thread_step_at-Inv asleep e v = ground arith
thread_step_at-Inv outer e v = ground arith
thread_step_at-Inv inner {n} {s} e v = ground (
  arith,
  undone-append s.seen (s.todo ++ s.late),
  undone-append s.todo s.late,
  is_empty-append s.seen s.todo s.late,
)
thread_step_at-Inv scan {n} {s} e v = scan_step-Inv s.todo refl e v
thread_step_at-Inv tail {n} {s} e v = ground (arith, is_empty-append s.seen s.todo s.late)
thread_step_at-Inv idle e v = ground arith
thread_step_at-Inv stopped e v = ground arith

pub step-Inv : (a : Actor) {n : ℕ} {s : World} → Inv n s → Inv n (step s a)
unfolding step
step-Inv thread v = thread_step_at-Inv _ refl v
step-Inv main v = main_step_at-Inv _ refl v
step-Inv (engine p i st) v = engine_step-Inv p i st v

pub run-Inv : (actors : List Actor) {n : ℕ} {s : World} → Inv n s → Inv n (run s actors)
unfolding run
run-Inv [] v = v
run-Inv (a ∷ actors) v = run-Inv actors (step-Inv a v)

-- What `dsa_copy` finds when its wait is over: all `n` entries counted, an empty list, and a status
-- that tells whether a failure was printed.
pub record Finished (n : ℕ) (s : World) : Type 0 where
  pub counted : s.poll_entry ≡ n
  pub empty : idxd_desc_lists s ≡ []
  pub failed : (s.completion_status ≡ 2) ↔ (s.printed ≢ [])
  pub succeeded : (s.completion_status ≡ 1) ↔ (s.printed ≡ [])

Finished-of_Inv : {n : ℕ} {s : World} → Inv n s → is_back s.main_at ≡ true → Finished n s
Finished-of_Inv v b = record {
  counted = ground arith;
  empty = ground arith;
  failed = (ground arith, ground arith);
  succeeded = (ground arith, ground arith);
}

-- In every interleaving of the thread, `dsa_copy` and the engine, when `dsa_copy` is past its wait
-- (and so before it unmaps the areas) the thread has counted a report on each of the `n` entries
-- submitted, the list is empty, `completion_status` is 2 exactly when the thread has printed a
-- failure, and 1 exactly when it has printed none.
pub copy_waits_for_all :
    (batches : ℕ → Option ℕ) (total n : ℕ) (schedule : List Actor)
    → is_back (run (start batches total n) schedule).main_at ≡ true
    → Finished n (run (start batches total n) schedule)
copy_waits_for_all batches total n schedule b =
    Finished-of_Inv (run-Inv schedule (start-Inv batches total n)) b
