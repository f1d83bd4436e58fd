-- ===== src/Worker/Refine.antt =====
-- What the completion thread and `dsa_copy` do together, told without the list, the flags and the
-- interleaving: entries are submitted and counted one at a time, and the wait of `dsa_copy` ends after
-- all of them.
use dsa_test.Base.{
  Option, ◌&&◌, ltb, subst, sym, Bool-cases, inl, inr, ℕ, zero, suc, ◌+◌, ◌≡◌, refl, Bool, true,
  false, List, [], ◌∷◌, ◌++◌, arith, if◌then◌else◌, ◌==◌, not,
}
use dsa_test.Desc.{comp_success}
use dsa_test.Worker.Inv.{
  is_empty-append, undone, left, is_back, Inv, undone-append, undone-report, start-Inv, step-Inv,
}
use dsa_test.Worker.{
  thread, main, engine, step, run, start, Entry, ThreadAt, asleep, outer, inner, scan, tail, idle,
  stopped, MainAt, submit, wake, wait_wakeup, clear, wait_status, returned, stopping, exited, World,
  Part, in_seen, in_todo, in_late, idxd_desc_lists, is_empty, scan_step, thread_step_at, visit,
  main_step_at, engine_step, append, submitted, Actor,
}

pub record Progress : Type 0 where
  pub to_submit : ℕ
  pub in_flight : ℕ
  pub counted : ℕ
  pub failed : Bool
  pub finished : Bool
  pub back : Bool

-- One step of the abstract program.
pub data Advance (p : Progress) : Progress → Type 0 where
  stutters : Advance p p
  submits :
      (n : ℕ)
      → p.to_submit ≡ suc n
      → Advance p (record p { to_submit = n; in_flight = suc p.in_flight })
  counts :
      (n : ℕ) (failure : Bool)
      → p.in_flight ≡ suc n
      → Advance p (record p {
        in_flight = n;
        counted = suc p.counted;
        failed = if failure then true else p.failed;
      })
  finishes : p.to_submit ≡ 0 → p.in_flight ≡ 0 → Advance p (record p { finished = true })
  comes_back : p.finished ≡ true → Advance p (record p { back = true })

-- Any number of steps
pub data Advances (p : Progress) : Progress → Type 0 where
  stays : Advances p p
  goes_on : {q r : Progress} → Advances p q → Advance q r → Advances p r

-- What a state amounts to.
pub progress : World → Progress
progress s = record {
  to_submit = left s.main_at;
  in_flight = undone s.seen + undone s.todo + undone s.late;
  counted = s.poll_entry;
  failed = s.completion_error;
  finished = not (s.completion_status == 0);
  back = is_back s.main_at;
}

stutter : (p q : Progress) → p ≡ q → Advance p q
stutter p q e = subst (Advance p) e stutters

module _ (p q : Progress) where
  submit_to :
      (n : ℕ)
      → p.to_submit ≡ suc n
      → q ≡ record p { to_submit = n; in_flight = suc p.in_flight }
      → Advance p q
  submit_to n h e = subst (Advance p) (sym e) (submits n h)

  count_to :
      (n : ℕ) (failure : Bool)
      → p.in_flight ≡ suc n
      → q ≡ record p {
        in_flight = n;
        counted = suc p.counted;
        failed = if failure then true else p.failed;
      }
      → Advance p q
  count_to n failure h e = subst (Advance p) (sym e) (counts n failure h)

  finish_to : p.to_submit ≡ 0 → p.in_flight ≡ 0 → q ≡ record p { finished = true } → Advance p q
  finish_to h g e = subst (Advance p) (sym e) (finishes h g)

  back_to : p.finished ≡ true → q ≡ record p { back = true } → Advance p q
  back_to h e = subst (Advance p) (sym e) (comes_back h)

engine_step-progress :
    (p : Part) (i st : ℕ) (s : World) → progress (engine_step p i st s) ≡ progress s
unfolding engine_step progress
engine_step-progress in_seen i st s = rw (undone-report i st s.seen)
engine_step-progress in_todo i st s = rw (undone-report i st s.todo)
engine_step-progress in_late i st s = rw (undone-report i st s.late)

append-progress :
    (b : Option ℕ) (ts : List Entry) (k : ℕ) (s : World)
    → s.todo ≡ ts
    → s.main_at ≡ submit (suc k)
    → progress (append (submitted b) ts (record s { main_at = wake k }))
      ≡ record (progress s) { to_submit = k; in_flight = suc (progress s).in_flight }
unfolding append progress
append-progress b [] k s e m = ground (arith, undone-append s.late (submitted b ∷ []))
append-progress b (t ∷ ts) k s e m = ground (arith, undone-append (t ∷ ts) (submitted b ∷ []))

left-submit : (k : ℕ) (s : World) → s.main_at ≡ submit (suc k) → (progress s).to_submit ≡ suc k
unfolding progress
left-submit k s e = ground arith

wait_status-Advance :
    (s : World)
    → s.main_at ≡ wait_status
    → Advance (progress s) (progress (main_step_at wait_status s))
unfolding main_step_at progress
wait_status-Advance s e = elim (Bool-cases (s.completion_status == 0)) [
  | inl waits ↦ stutter _ _ (ground arith)
  | inr ready ↦ back_to _ _ (ground arith) (ground arith)
]

main_step_at-Advance :
    (m : MainAt) {n : ℕ} {s : World}
    → s.main_at ≡ m
    → Inv n s
    → Advance (progress s) (progress (main_step_at m s))
unfolding main_step_at progress
main_step_at-Advance (submit zero) e v = stutter _ _ (ground arith)
main_step_at-Advance (submit (suc k)) {n} {s} e v =
    submit_to (progress s) _ k (left-submit k s e)
      (append-progress (s.batch_of k) s.todo k s refl e)
main_step_at-Advance (wake k) e v = stutter _ _ (ground arith)
main_step_at-Advance wait_wakeup e v = stutter _ _ (ground arith)
main_step_at-Advance clear e v = stutter _ _ (ground arith)
main_step_at-Advance wait_status {n} {s} e v = wait_status-Advance s e
main_step_at-Advance returned e v = stutter _ _ (ground arith)
main_step_at-Advance stopping e v = stutter _ _ (ground arith)
main_step_at-Advance exited e v = stutter _ _ (ground arith)

scan_step-Advance :
    (es : List Entry) (s : World)
    → s.todo ≡ es
    → s.thread_at ≡ scan
    → Advance (progress s) (progress (scan_step es s))
unfolding scan_step visit progress
scan_step-Advance [] s e t = stutter _ _ (ground (arith, undone-append s.seen s.late))
scan_step-Advance (x ∷ es) s e t =
    let rest = undone s.seen + undone es + undone s.late in
    let kept = undone-append s.seen (x ∷ []) in
    let done = undone-append s.seen (record x { completion = true } ∷ []) in
    elim (Bool-cases x.completion) [
      | inl counted ↦ stutter _ _ (ground (arith, kept))
      | inr new ↦ elim (Bool-cases (x.status == comp_success)) [
        | inl good ↦ count_to _ _ rest false (ground arith) (ground (arith, done))
        | inr not_good ↦ elim (Bool-cases (ltb comp_success x.status)) [
          | inl bad ↦ count_to _ _ rest true (ground arith) (ground (arith, done))
          | inr unreported ↦ stutter _ _ (ground (arith, kept))
        ]
      ]
    ]

tail-Advance :
    {n : ℕ} (s : World)
    → s.thread_at ≡ tail
    → Inv n s
    → Advance (progress s) (progress (thread_step_at tail s))
unfolding thread_step_at progress
tail-Advance s e v = elim (Bool-cases (not s.thread_execution && is_empty (idxd_desc_lists s))) [
  | inl ends ↦
      finish_to _ _ (ground arith) (ground (arith, is_empty-append s.seen s.todo s.late))
        (ground arith)
  | inr goes ↦ stutter _ _ (ground arith)
]

thread_step_at-Advance :
    (t : ThreadAt) {n : ℕ} {s : World}
    → s.thread_at ≡ t
    → Inv n s
    → Advance (progress s) (progress (thread_step_at t s))
unfolding thread_step_at progress
thread_step_at-Advance asleep e v = stutter _ _ (ground arith)
thread_step_at-Advance outer e v = stutter _ _ (ground arith)
thread_step_at-Advance inner {n} {s} e v =
    stutter _ _
      (ground (arith, undone-append s.seen (s.todo ++ s.late), undone-append s.todo s.late))
thread_step_at-Advance scan {n} {s} e v = scan_step-Advance s.todo s refl e
thread_step_at-Advance tail {n} {s} e v = tail-Advance s e v
thread_step_at-Advance idle e v = stutter _ _ (ground arith)
thread_step_at-Advance stopped e v = stutter _ _ (ground arith)

step-Advance :
    (a : Actor) {n : ℕ} {s : World} → Inv n s → Advance (progress s) (progress (step s a))
unfolding step
step-Advance thread v = thread_step_at-Advance _ refl v
step-Advance main v = main_step_at-Advance _ refl v
step-Advance (engine p i st) {n} {s} v = stutter _ _ (sym (engine_step-progress p i st s))

run-Advances :
    (schedule : List Actor) {n : ℕ} {p : Progress} {s : World}
    → Inv n s
    → Advances p (progress s)
    → Advances p (progress (run s schedule))
unfolding run
run-Advances [] v r = r
run-Advances (a ∷ schedule) v r =
    run-Advances schedule (step-Inv a v) (goes_on r (step-Advance a v))

-- `n` entries to submit
abbrev pub untouched : ℕ → Progress
untouched n = record {
  to_submit = n;
  in_flight = 0;
  counted = 0;
  failed = false;
  finished = false;
  back = false;
}

progress-start :
    (batches : ℕ → Option ℕ) (total n : ℕ)
    → Advances (untouched n) (progress (start batches total n))
unfolding start progress
progress-start batches total n = stays

-- Every interleaving of the thread, `dsa_copy` and the engine is a run of the abstract program: each
-- step submits one entry, counts one that is in flight, ends the work when none is left to submit
-- and none is in flight, brings `dsa_copy` back when the work has ended, or changes nothing of these.
pub run_refines :
    (batches : ℕ → Option ℕ) (total n : ℕ) (schedule : List Actor)
    → Advances (untouched n) (progress (run (start batches total n) schedule))
run_refines batches total n schedule =
    run-Advances schedule (start-Inv batches total n) (progress-start batches total n)
