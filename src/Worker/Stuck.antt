-- ===== src/Worker/Stuck.antt =====
-- The interleaving in which `dsa_copy` waits for ever: the thread has counted all entries before
-- `thread_execution` was cleared, and so has left them in the list.
use dsa_test.Base.{ℕ, zero, suc, ◌≤◌, ◌≡◌, refl, Bool, true, false, List, [], ◌∷◌, ◌++◌, arith}
use dsa_test.Worker.{
  Entry, ThreadAt, outer, inner, tail, MainAt, wait_wakeup, clear, wait_status, World, Actor,
  thread, main, engine, Part, in_seen, in_todo, in_late, idxd_desc_lists, is_empty, report,
  thread_step_at, main_step_at, engine_step, step, run,
}

abbrev is_polling : ThreadAt → Bool
is_polling outer = true
is_polling inner = true
is_polling tail = true
is_polling _ = false

abbrev is_waiting : MainAt → Bool
is_waiting wait_wakeup = true
is_waiting clear = true
is_waiting wait_status = true
is_waiting _ = false

-- All entries are submitted and counted, the list still holds some, and the thread is awake.
pub record IsStuck (s : World) : Type 0 where
  pub counted : s.total_entries ≤ s.poll_entry
  pub holds : is_empty (idxd_desc_lists s) ≡ false
  pub polling : is_polling s.thread_at ≡ true
  pub waiting : is_waiting s.main_at ≡ true
  pub status : s.completion_status ≡ 0
  pub no_stop : s.should_stop ≡ false

is_empty-append_left : (xs ys : List Entry) → is_empty xs ≡ false → is_empty (xs ++ ys) ≡ false
is_empty-append_left [] ys h = cc
is_empty-append_left (x ∷ xs) ys h = refl

is_empty-report : (i st : ℕ) (es : List Entry) → is_empty (report i st es) ≡ is_empty es
unfolding report
is_empty-report i st [] = refl
is_empty-report zero st (e ∷ es) = refl
is_empty-report (suc i) st (e ∷ es) = refl

is_empty-cong :
    (xs xs' ys ys' zs zs' : List Entry)
    → is_empty xs ≡ is_empty xs'
    → is_empty ys ≡ is_empty ys'
    → is_empty zs ≡ is_empty zs'
    → is_empty (xs ++ (ys ++ zs)) ≡ is_empty (xs' ++ (ys' ++ zs'))
is_empty-cong [] [] [] [] zs zs' p q r = r
is_empty-cong [] [] [] (y ∷ ys') zs zs' p q r = cc
is_empty-cong [] [] (y ∷ ys) [] zs zs' p q r = cc
is_empty-cong [] [] (y ∷ ys) (y' ∷ ys') zs zs' p q r = refl
is_empty-cong [] (x ∷ xs') ys ys' zs zs' p q r = cc
is_empty-cong (x ∷ xs) [] ys ys' zs zs' p q r = cc
is_empty-cong (x ∷ xs) (x' ∷ xs') ys ys' zs zs' p q r = refl

engine_step-IsStuck : (p : Part) (i st : ℕ) {s : World} → IsStuck s → IsStuck (engine_step p i st s)
unfolding engine_step
engine_step-IsStuck in_seen i st {s} v = ground (
  arith,
  is_empty-cong (report i st s.seen) s.seen s.todo s.todo s.late s.late
      (is_empty-report i st s.seen) refl refl,
)
engine_step-IsStuck in_todo i st {s} v = ground (
  arith,
  is_empty-cong s.seen s.seen (report i st s.todo) s.todo s.late s.late refl
      (is_empty-report i st s.todo) refl,
)
engine_step-IsStuck in_late i st {s} v = ground (
  arith,
  is_empty-cong s.seen s.seen s.todo s.todo (report i st s.late) s.late refl refl
      (is_empty-report i st s.late),
)

main_step-IsStuck :
    (m : MainAt) {s : World} → s.main_at ≡ m → IsStuck s → IsStuck (main_step_at m s)
unfolding main_step_at
main_step-IsStuck wait_wakeup e v = ground arith
main_step-IsStuck clear e v = ground arith
main_step-IsStuck wait_status e v = ground arith
main_step-IsStuck _ e v = absurd (ground arith)

thread_step-IsStuck :
    (t : ThreadAt) {s : World} → s.thread_at ≡ t → IsStuck s → IsStuck (thread_step_at t s)
unfolding thread_step_at
thread_step-IsStuck outer e v = ground arith
thread_step-IsStuck inner e v = ground arith
thread_step-IsStuck tail e v = ground arith
thread_step-IsStuck _ e v = absurd (ground arith)

step-IsStuck : (a : Actor) {s : World} → IsStuck s → IsStuck (step s a)
unfolding step
step-IsStuck thread v = thread_step-IsStuck _ refl v
step-IsStuck main v = main_step-IsStuck _ refl v
step-IsStuck (engine p i st) v = engine_step-IsStuck p i st v

pub run-IsStuck : (actors : List Actor) {s : World} → IsStuck s → IsStuck (run s actors)
unfolding run
run-IsStuck [] v = v
run-IsStuck (a ∷ actors) v = run-IsStuck actors (step-IsStuck a v)
