-- ===== src/Dispatch.antt =====
-- The submissions of `dsa_copy` of
-- DSA_Kernelspace_Test/3.kernel_test_N_DSAs/kernel_test_sgtable_batch.c: round by round, one batch for
-- every queue that has one left.
--
-- A queue stands at its `enabled_wq_num` in the list (`Setup.Queues`), and the arrays that are indexed
-- by that number are fields of a `Lane`. `srcs` and `dsts` are the mapped entries of its two tables.
-- `grants i j` is what the kernel gives to queue `j` in round `i`. A submission that the driver
-- refuses is only printed. `thread_execution` and the thread are `Worker`.
pub mod Visits
pub mod Served
pub mod DoubleFree
pub mod Singles
mod Examples
use dsa_test.Base.{
  ℕ, zero, suc, ◌+◌, ◌*◌, ◌-◌, max, Bool, true, false, List, [], ◌∷◌, ◌++◌, length, map, ltb, ◌==◌,
  if◌then◌else◌, Outcome, returns, fault, ◌>>=◌, deref,
}
use dsa_test.Desc.{Wq, Seg, Grant, DescList, submit_flags, idxd_desc_dma_submit_memcpy_sg}
use dsa_test.Copy.{div_up, single, chunk_size}

pub record Queue : Type 0 where
  pub wq : Wq
  pub srcs : List Seg
  pub dsts : List Seg

-- One queue in `dsa_copy`: `total_nents`, its places in `descs_entries`, `sg_srcs` and `sg_dsts`, and
-- what `idxd_submit_desc` has written to it.
pub record Lane : Type 0 where
  pub wq : Wq
  pub total_nents : ℕ
  pub descs_entries : ℕ
  pub sg_src : List Seg
  pub sg_dst : List Seg
  pub sent : List DescList

-- `batch_task`: NULL, allocated, or freed and not reset
pub data TaskPointer : Type 0 where
  null live dangling : TaskPointer

-- `if (batch_task) kfree(batch_task);`
pub free_task : TaskPointer → Outcome TaskPointer
free_task null = returns null
free_task live = returns dangling
free_task dangling = fault

-- The first loop.
pub lane : Queue → Lane
lane q =
    let nents1 = length q.srcs in
    let nents2 = length q.dsts in
    let total = if ltb nents2 nents1 then nents2 else nents1 in
    record {
      wq = q.wq;
      total_nents = total;
      descs_entries = div_up total q.wq.idxd.max_batch_size;
      sg_src = q.srcs;
      sg_dst = q.dsts;
      sent = [];
    }

pub max_entries : List Lane → ℕ
max_entries [] = 0
max_entries (l ∷ ls) = max l.descs_entries (max_entries ls)

-- What one queue is given: the new list entry, the queue after it, and `batch_task`.
pub make_entry : ℕ → Grant → ℕ → Lane → TaskPointer → Outcome (DescList × Lane × TaskPointer)
make_entry dma_prep_interrupt g cur_ent l task =
    if l.total_nents == 1
    then (single dma_prep_interrupt l.wq g l.sg_dst l.sg_src >>= λ desc_list.
        returns (desc_list, record l { sent = l.sent ++ desc_list ∷ [] }, task))
    else (idxd_desc_dma_submit_memcpy_sg dma_prep_interrupt l.wq g l.sg_dst l.sg_src
          (chunk_size l.wq.idxd.max_batch_size (l.total_nents - cur_ent * l.wq.idxd.max_batch_size))
          submit_flags
        >>= λ made. deref made >>= λ t. returns (
          t.desc_list,
          record l {
            sg_src = t.next_sg_src;
            sg_dst = t.next_sg_dst;
            sent = l.sent ++ t.desc_list ∷ [];
          },
          live,
        ))

-- The body of the loop over the queues: the entries that it adds to `idxd_desc_lists`, the queue and
-- `batch_task`.
pub visit_lane : ℕ → Grant → ℕ → Lane → TaskPointer → Outcome (List DescList × Lane × TaskPointer)
unfolding make_entry free_task
visit_lane dma_prep_interrupt g cur_ent l task =
    if ltb cur_ent l.descs_entries
    then (make_entry dma_prep_interrupt g cur_ent l task >>= λ (desc_list, l', task').
        free_task task' >>= λ task''. returns (desc_list ∷ [], l', task''))
    else returns ([], l, task)

-- The loop over the queues, from queue `j` on.
pub sweep_lanes :
    ℕ
    → (ℕ → Grant)
    → ℕ
    → ℕ
    → List Lane
    → TaskPointer
    → Outcome (List DescList × List Lane × TaskPointer)
unfolding visit_lane
sweep_lanes dma_prep_interrupt grants cur_ent j [] task = returns ([], [], task)
sweep_lanes dma_prep_interrupt grants cur_ent j (l ∷ ls) task =
    visit_lane dma_prep_interrupt (grants j) cur_ent l task >>= λ (new, l', task').
    sweep_lanes dma_prep_interrupt grants cur_ent (j + 1) ls task' >>= λ (more, ls', task'').
    returns (new ++ more, l' ∷ ls', task'')

-- `while (cur_ent < max_ents)`, with `n` rounds left.
pub rounds :
    ℕ
    → (ℕ → ℕ → Grant)
    → ℕ
    → ℕ
    → List Lane
    → TaskPointer
    → Outcome (List DescList × List Lane × TaskPointer)
unfolding sweep_lanes
rounds dma_prep_interrupt grants zero cur_ent ls task = returns ([], ls, task)
rounds dma_prep_interrupt grants (suc n) cur_ent ls task =
    sweep_lanes dma_prep_interrupt (grants cur_ent) cur_ent 0 ls task >>= λ (new, ls', task').
    rounds dma_prep_interrupt grants n (cur_ent + 1) ls' task' >>= λ (more, ls'', task'').
    returns (new ++ more, ls'', task'')

-- `total_entries`, which the thread compares its count with
pub total_entries : List Queue → ℕ
unfolding lane max_entries
total_entries queues = max_entries (map lane queues) * length queues

-- The submissions of `dsa_copy`: `idxd_desc_lists` in its order, and the queues at the end.
pub dispatch : ℕ → (ℕ → ℕ → Grant) → List Queue → Outcome (List DescList × List Lane × TaskPointer)
unfolding rounds lane max_entries
dispatch dma_prep_interrupt grants queues =
    rounds dma_prep_interrupt grants (max_entries (map lane queues)) 0 (map lane queues) null
