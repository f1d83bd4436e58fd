-- ===== src/Dispatch/DoubleFree.antt =====
-- How `dsa_copy` of DSA_Kernelspace_Test/3.kernel_test_N_DSAs/kernel_test_sgtable_batch.c frees a
-- batch task twice: it frees `batch_task` after each submission and does not reset it.
use dsa_test.Base.{
  ◌+◌, ◌++◌, zero, suc, here, there, sym, subst, min, map, ℕ, ◌<◌, ◌≡◌, refl, none, some, List, [],
  ◌∷◌, arith, Outcome, returns, fault, ◌>>=◌, deref, Option, ltb, ◌==◌, true, false, Bool-cases,
  Has, inl, inr, length,
}
use dsa_test.Desc.{Grant, DescList, BatchTask}
use dsa_test.Copy.Cuts.{common, div_up_pos}
use dsa_test.Dispatch.{
  null, Lane, TaskPointer, live, dangling, make_entry, free_task, visit_lane, Queue, dispatch,
  rounds, sweep_lanes, lane, max_entries,
}

-- A visit after which the task that `batch_task` points to has been freed.
data Dangles : Outcome (List DescList × Lane × TaskPointer) → Type 0 where
  faults : Dangles fault
  leaves : (new : List DescList) (l : Lane) → Dangles (returns (new, l, dangling))

-- What `visit_lane` does with a new entry.
abbrev free_after : DescList × Lane × TaskPointer → Outcome (List DescList × Lane × TaskPointer)
free_after (desc_list, l, task) = free_task task >>= λ task'. returns (desc_list ∷ [], l, task')

-- How `sweep_lanes` goes on after a queue.
abbrev gather :
    (TaskPointer → Outcome (List DescList × List Lane × TaskPointer))
    → List DescList × Lane × TaskPointer
    → Outcome (List DescList × List Lane × TaskPointer)
gather rest (new, l, task) = rest task >>= λ (more, ls, task'). returns (new ++ more, l ∷ ls, task')

single_freed :
    (made : Outcome DescList) (after : DescList → Lane)
    → (made >>= (λ d. returns (d, after d, dangling)) >>= free_after) ≡ fault
unfolding free_task
single_freed (returns d) after = refl
single_freed fault after = refl

batch-Dangles :
    (made : Outcome (Option BatchTask)) (after : BatchTask → Lane)
    → Dangles (made >>= (λ m. deref m >>= λ t. returns (t.desc_list, after t, live)) >>= free_after)
unfolding free_task
batch-Dangles (returns (some t)) after = leaves _ _
batch-Dangles (returns none) after = faults
batch-Dangles fault after = faults

module _ (p : ℕ) where
  -- A queue with one entry frees the task again.
  visit_lane-one :
      (g : Grant) (l : Lane)
      → 0 < l.descs_entries
      → l.total_nents ≡ 1
      → visit_lane p g 0 l dangling ≡ fault
  unfolding visit_lane make_entry
  visit_lane-one g l more one =
      let start : ltb 0 l.descs_entries ≡ true = ground arith in
      let alone : (l.total_nents == 1) ≡ true = ground arith in rw (start, alone) (single_freed _ _)

  visit_lane-many :
      (g : Grant) (l : Lane) (task : TaskPointer)
      → 0 < l.descs_entries
      → 1 < l.total_nents
      → Dangles (visit_lane p g 0 l task)
  unfolding visit_lane make_entry
  visit_lane-many g l task more many =
      let start : ltb 0 l.descs_entries ≡ true = ground arith in
      let batch : (l.total_nents == 1) ≡ false = ground arith in
      rw (start, batch) (batch-Dangles _ _)

  visit_lane-Dangles : (g : Grant) (l : Lane) → Dangles (visit_lane p g 0 l dangling)
  unfolding visit_lane make_entry
  visit_lane-Dangles g l = elim (Bool-cases (ltb 0 l.descs_entries)) [
    | inl start ↦ elim (Bool-cases (l.total_nents == 1)) [
      | inl alone ↦ rw (start, alone) (subst Dangles (sym (single_freed _ _)) faults)
      | inr batch ↦ rw (start, batch) (batch-Dangles _ _)
    ]
    | inr over ↦ rw over (leaves [] l)
  ]

  then-faults :
      {r : Outcome (List DescList × Lane × TaskPointer)}
      (rest : TaskPointer → Outcome (List DescList × List Lane × TaskPointer))
      → Dangles r
      → rest dangling ≡ fault
      → (r >>= gather rest) ≡ fault
  then-faults rest faults e = refl
  then-faults rest (leaves new l) e = rw e

  sweep_lanes-faults :
      (grants : ℕ → Grant) (j : ℕ) (l : Lane) (ls : List Lane) (task : TaskPointer)
      → Dangles (visit_lane p (grants j) 0 l task)
      → ((k : ℕ) → sweep_lanes p grants 0 k ls dangling ≡ fault)
      → sweep_lanes p grants 0 j (l ∷ ls) task ≡ fault
  unfolding sweep_lanes
  sweep_lanes-faults grants j l ls task v h =
      then-faults (sweep_lanes p grants 0 (j + 1) ls) v (h (j + 1))

  sweep_lanes-dangling :
      (grants : ℕ → Grant) (j : ℕ) (l : Lane) (ls : List Lane)
      → Has l ls
      → 0 < l.descs_entries
      → l.total_nents ≡ 1
      → sweep_lanes p grants 0 j ls dangling ≡ fault
  unfolding sweep_lanes
  sweep_lanes-dangling grants j l [] later more one = elim later [ ]
  sweep_lanes-dangling grants j l (_ ∷ ls) here more one = rw (visit_lane-one (grants j) l more one)
  sweep_lanes-dangling grants j l (l' ∷ ls) (there m) more one =
      sweep_lanes-faults grants j l' ls dangling (visit_lane-Dangles (grants j) l')
        (λ k. sweep_lanes-dangling grants k l ls m more one)

  rounds-faults :
      (grants : ℕ → ℕ → Grant) (n : ℕ) (ls : List Lane) (task : TaskPointer)
      → 0 < n
      → sweep_lanes p (grants 0) 0 0 ls task ≡ fault
      → rounds p grants n 0 ls task ≡ fault
  unfolding rounds
  rounds-faults grants zero ls task h e = absurd (omega arith)
  rounds-faults grants (suc n) ls task h e = rw e

Has-map : {q : Queue} {qs : List Queue} → Has q qs → Has (lane q) (map lane qs)
Has-map here = here
Has-map (there m) = there (Has-map m)

-- When the first queue has two tables of more than one entry, a later queue has a table of exactly
-- one entry and another that is not empty, and batches hold at least one descriptor, `dsa_copy`
-- faults, whatever the driver gives: it frees the batch task of the first queue once more after the
-- single descriptor of the later one.
pub dispatch-double_free :
    (p : ℕ) (grants : ℕ → ℕ → Grant) (q : Queue) (queues : List Queue) (one : Queue)
    → 0 < q.wq.idxd.max_batch_size
    → 1 < length q.srcs
    → 1 < length q.dsts
    → Has one queues
    → 0 < one.wq.idxd.max_batch_size
    → min (length one.srcs) (length one.dsts) ≡ 1
    → dispatch p grants (q ∷ queues) ≡ fault
unfolding dispatch lane max_entries
dispatch-double_free p grants q queues one sized srcs dsts later sized' alone =
    let total = common (length q.srcs) (length q.dsts) in
    let total' = common (length one.srcs) (length one.dsts) in
    let many : 1 < total = ground arith in
    let single : total' ≡ 1 = ground arith in
    let some_left = div_up_pos total q.wq.idxd.max_batch_size (omega arith) sized in
    rounds-faults p grants (max_entries (map lane (q ∷ queues))) (map lane (q ∷ queues)) null
      (omega (arith, some_left))
      (sweep_lanes-faults p (grants 0) 0 (lane q) (map lane queues) null
        (visit_lane-many p (grants 0 0) (lane q) null some_left many)
        (λ k.
          sweep_lanes-dangling p (grants 0) k (lane one) (map lane queues) (Has-map later)
            (div_up_pos total' one.wq.idxd.max_batch_size (omega arith) sized') single))
