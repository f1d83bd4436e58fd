-- ===== src/Dispatch/Visits.antt =====
-- One visit to a queue in the submissions of `dsa_copy` of
-- DSA_Kernelspace_Test/3.kernel_test_N_DSAs/kernel_test_sgtable_batch.c.
use dsa_test.Base.{
  ◌==◌, ℕ, ◌+◌, ◌*◌, ◌-◌, ◌≤◌, ◌<◌, ◌≡◌, refl, ap, ◌∙◌, some, List, [], ◌∷◌, ◌++◌, length, take,
  drop, arith, Outcome, returns, append_assoc, dec_lt, ltb, false, true, length-drop, sym,
  append-nil,
}
use dsa_test.Desc.{
  Desc, Grant, DescList, enabled, submit_flags, BatchTask, idxd_desc_dma_submit_memcpy_sg,
}
use dsa_test.Desc.Batch.{
  Transfer, entrywise, IsBatch, submit_memcpy_sg-IsBatch, pairwise-append, pairwise-take,
}
use dsa_test.Copy.{chunk_size}
use dsa_test.Copy.Cuts.{NoSingle, chunk_size-add, none_left, common, common-fits, div_up-enough}
use dsa_test.Copy.Batches.{asked_all, asked_all-append, asked_all-one, asked-IsBatch, asked_all-nil}
use dsa_test.Dispatch.{Lane, TaskPointer, make_entry, free_task, visit_lane, dangling, lane, Queue}

-- How many entries a queue has left before round `cur`.
abbrev pub left : ℕ → Lane → ℕ
left cur l = l.total_nents - cur * l.wq.idxd.max_batch_size

-- What a queue has asked for, and what it has yet to ask for.
pub owes : ℕ → Lane → List Transfer
owes cur l = asked_all l.sent ++ entrywise (take (left cur l) l.sg_dst) (take (left cur l) l.sg_src)

-- A queue that can be served in batches from round `cur` on.
pub record IsReady (cur : ℕ) (l : Lane) : Type 0 where
  pub on : l.wq.state ≡ enabled
  pub sized : 0 < l.wq.idxd.max_batch_size
  pub many : 1 < l.total_nents
  pub pairs : NoSingle l.total_nents l.wq.idxd.max_batch_size
  pub entries : l.total_nents ≤ l.descs_entries * l.wq.idxd.max_batch_size
  pub has_dst : left cur l ≤ length l.sg_dst
  pub has_src : left cur l ≤ length l.sg_src

-- What a visit in round `cur` does to a queue that is ready.
pub record Visited (cur : ℕ) (l : Lane) (r : Outcome (List DescList × Lane × TaskPointer))
    : Type 0 where
  pub new : List DescList
  pub after : Lane
  pub task : TaskPointer
  pub ran : r ≡ returns (new, after, task)
  pub ready : IsReady (cur + 1) after
  pub asks : owes (cur + 1) after ≡ owes cur l
  pub same : after.descs_entries ≡ l.descs_entries
  pub count : length new + (l.descs_entries - (cur + 1)) ≡ l.descs_entries - cur

-- A queue that `dsa_copy` can serve in batches.
pub record IsServable (q : Queue) : Type 0 where
  pub on : q.wq.state ≡ enabled
  pub sized : 0 < q.wq.idxd.max_batch_size
  pub many_srcs : 1 < length q.srcs
  pub many_dsts : 1 < length q.dsts
  pub pairs : NoSingle (common (length q.srcs) (length q.dsts)) q.wq.idxd.max_batch_size

pub lane-IsReady :
    (q : Queue) → IsServable q → IsReady 0 (lane q) × (owes 0 (lane q) ≡ entrywise q.dsts q.srcs)
unfolding lane owes
lane-IsReady q s =
    let max = q.wq.idxd.max_batch_size in
    let total = common (length q.srcs) (length q.dsts) in
    let many_srcs = s.many_srcs in
    let many_dsts = s.many_dsts in
    let all : total - 0 * max ≡ total = omega arith in
    let (fits1, fits2) = common-fits (length q.srcs) (length q.dsts) in
    (
      record {
        on = s.on;
        sized = s.sized;
        many = ground arith;
        pairs = s.pairs;
        entries = div_up-enough total max s.sized;
        has_dst = omega arith;
        has_src = omega arith;
      },
      rw (all, asked_all-nil) (pairwise-take (λ d s. d.dma_len) total q.dsts q.srcs (omega arith)),
    )

pub owes-zero :
    (cur : ℕ) (l : Lane) → IsReady cur l → l.descs_entries ≤ cur → asked_all l.sent ≡ owes cur l
unfolding owes
owes-zero cur l r h =
    let done = none_left l.total_nents l.wq.idxd.max_batch_size l.descs_entries cur r.entries h in
    sym (rw done (append-nil (asked_all l.sent)))

-- The queue after an entry of `n` copies.
advance : ℕ → Lane → DescList → Lane
advance n l d = record l {
  sg_src = drop n l.sg_src;
  sg_dst = drop n l.sg_dst;
  sent = l.sent ++ d ∷ [];
}

advance-asks :
    (n m : ℕ) (l : Lane) (d : DescList)
    → asked_all (d ∷ []) ≡ entrywise (take n l.sg_dst) (take n l.sg_src)
    → asked_all (l.sent ++ d ∷ [])
        ++ entrywise (take m (drop n l.sg_dst)) (take m (drop n l.sg_src))
      ≡ asked_all l.sent ++ entrywise (take (n + m) l.sg_dst) (take (n + m) l.sg_src)
advance-asks n m l d e =
    ap (λ t. t ++ entrywise (take m (drop n l.sg_dst)) (take m (drop n l.sg_src)))
      (asked_all-append l.sent (d ∷ []) ∙ ap (◌++◌ (asked_all l.sent)) e)
    ∙ append_assoc (asked_all l.sent) _ _
    ∙ ap (◌++◌ (asked_all l.sent)) (pairwise-append (λ d s. d.dma_len) n m l.sg_dst l.sg_src)

-- The queue after the batch of task `t`.
follow : Lane → BatchTask → Lane
follow l t = record l {
  sg_src = t.next_sg_src;
  sg_dst = t.next_sg_dst;
  sent = l.sent ++ t.desc_list ∷ [];
}

follow-IsBatch :
    {g : Grant} {n : ℕ} (l : Lane) (t : BatchTask)
    → IsBatch l.wq g l.sg_dst l.sg_src n t
    → follow l t ≡ advance n l t.desc_list
unfolding follow advance
follow-IsBatch l t b = rw (b.next_src, b.next_dst)

visit_lane-ran :
    (p : ℕ) (g : Grant) (cur : ℕ) (l : Lane) (task : TaskPointer) (t : BatchTask)
    → ltb cur l.descs_entries ≡ true
    → (l.total_nents == 1) ≡ false
    → idxd_desc_dma_submit_memcpy_sg p l.wq g l.sg_dst l.sg_src
        (chunk_size l.wq.idxd.max_batch_size (left cur l))
        submit_flags
      ≡ returns (some t)
    → visit_lane p g cur l task ≡ returns (t.desc_list ∷ [], follow l t, dangling)
unfolding visit_lane make_entry free_task follow
visit_lane-ran p g cur l task t more many ran = rw (more, many, ran)

module _ (p : ℕ) (g : Grant) (given : (d : Desc) × (g.alloc ≡ some d)) where
  visit_lane-busy :
      (cur : ℕ) (l : Lane) (task : TaskPointer)
      → IsReady cur l
      → cur < l.descs_entries
      → Visited cur l (visit_lane p g cur l task)
  unfolding advance owes
  visit_lane-busy cur l task r h =
      let max = l.wq.idxd.max_batch_size in
      let now = chunk_size max (left cur l) in
      let split = chunk_size-add max l.total_nents cur in
      let (d, alloc) = given in
      let fit_dst : now ≤ length l.sg_dst = ground (arith, r.has_dst) in
      let fit_src : now ≤ length l.sg_src = ground (arith, r.has_src) in
      let (t, ran, b) =
        submit_memcpy_sg-IsBatch p l.wq g d l.sg_dst l.sg_src now submit_flags r.on alloc fit_dst
          fit_src in
      let many = r.many in
      let again : ltb cur l.descs_entries ≡ true = ground arith in
      let batch : (l.total_nents == 1) ≡ false = ground arith in
      record {
        new = t.desc_list ∷ [];
        after = advance now l t.desc_list;
        task = dangling;
        ran =
            visit_lane-ran p g cur l task t again batch ran
            ∙ ap (λ l'. returns (t.desc_list ∷ [], l', dangling)) (follow-IsBatch l t b);
        ready = record {
          on = r.on;
          sized = r.sized;
          many = r.many;
          pairs = r.pairs;
          entries = r.entries;
          has_dst = omega (arith, length-drop now l.sg_dst, r.has_dst, split);
          has_src = omega (arith, length-drop now l.sg_src, r.has_src, split);
        };
        asks =
            advance-asks now (left (cur + 1) l) l t.desc_list
              (asked_all-one t.desc_list ∙ asked-IsBatch (r.pairs cur) b)
            ∙ ap (λ k. asked_all l.sent ++ entrywise (take k l.sg_dst) (take k l.sg_src)) split;
        same = refl;
        count = omega arith;
      }

  pub visit_lane-Visited :
      (cur : ℕ) (l : Lane) (task : TaskPointer)
      → IsReady cur l
      → Visited cur l (visit_lane p g cur l task)
  unfolding visit_lane owes
  visit_lane-Visited cur l task r = elim (dec_lt cur l.descs_entries) [
    | yes h ↦ visit_lane-busy cur l task r h
    | no h ↦
        let over : ltb cur l.descs_entries ≡ false = ground arith in
        let max = l.wq.idxd.max_batch_size in
        let done : left cur l ≡ 0 =
          none_left l.total_nents max l.descs_entries cur r.entries (omega arith) in
        let done' : left (cur + 1) l ≡ 0 =
          none_left l.total_nents max l.descs_entries (cur + 1) r.entries (omega arith) in
        record {
          new = [];
          after = l;
          task = task;
          ran = rw over;
          ready = record {
            on = r.on;
            sized = r.sized;
            many = r.many;
            pairs = r.pairs;
            entries = r.entries;
            has_dst = omega arith;
            has_src = omega arith;
          };
          asks = rw (done, done');
          same = refl;
          count = omega arith;
        }
  ]
