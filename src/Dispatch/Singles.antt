-- ===== src/Dispatch/Singles.antt =====
-- The submissions of `dsa_copy` of DSA_Kernelspace_Test/3.kernel_test_N_DSAs/kernel_test_sgtable.c:
-- round by round, one descriptor for every queue that has an entry left. Queues, lanes and grants are
-- those of `Dispatch`; here `descs_entries` is the number of entries.
pub mod Served
use dsa_test.Base.{
  ℕ, zero, suc, ◌+◌, ◌*◌, min, true, false, List, [], ◌∷◌, ◌++◌, length, map, drop, ltb,
  if◌then◌else◌, Outcome, returns, fault, ◌>>=◌,
}
use dsa_test.Desc.{Grant, DescList}
use dsa_test.Copy.{single}
use dsa_test.Dispatch.{Queue, Lane, max_entries}

-- The first loop.
pub single_lane : Queue → Lane
single_lane q =
    let total = min (length q.srcs) (length q.dsts) in
    record {
      wq = q.wq;
      total_nents = total;
      descs_entries = total;
      sg_src = q.srcs;
      sg_dst = q.dsts;
      sent = [];
    }

-- The body of the loop over the queues, which ends with `sg_next` on both chains.
pub visit_single : ℕ → Grant → ℕ → Lane → Outcome (List DescList × Lane)
visit_single dma_prep_interrupt g cur_ent l =
    if ltb cur_ent l.descs_entries
    then (single dma_prep_interrupt l.wq g l.sg_dst l.sg_src >>= λ desc_list. returns (
      desc_list ∷ [],
      record l {
        sg_src = drop 1 l.sg_src;
        sg_dst = drop 1 l.sg_dst;
        sent = l.sent ++ desc_list ∷ [];
      },
    ))
    else returns ([], l)

-- The loop over the queues, from queue `j` on.
pub sweep_singles : ℕ → (ℕ → Grant) → ℕ → ℕ → List Lane → Outcome (List DescList × List Lane)
unfolding visit_single
sweep_singles dma_prep_interrupt grants cur_ent j [] = returns ([], [])
sweep_singles dma_prep_interrupt grants cur_ent j (l ∷ ls) =
    visit_single dma_prep_interrupt (grants j) cur_ent l >>= λ (new, l').
    sweep_singles dma_prep_interrupt grants cur_ent (j + 1) ls >>= λ (more, ls').
    returns (new ++ more, l' ∷ ls')

-- `while (cur_ent < max_ents)`, with `n` rounds left.
pub single_rounds : ℕ → (ℕ → ℕ → Grant) → ℕ → ℕ → List Lane → Outcome (List DescList × List Lane)
unfolding sweep_singles
single_rounds dma_prep_interrupt grants zero cur_ent ls = returns ([], ls)
single_rounds dma_prep_interrupt grants (suc n) cur_ent ls =
    sweep_singles dma_prep_interrupt (grants cur_ent) cur_ent 0 ls >>= λ (new, ls').
    single_rounds dma_prep_interrupt grants n (cur_ent + 1) ls' >>= λ (more, ls'').
    returns (new ++ more, ls'')

-- The submissions of `dsa_copy`.
pub dispatch_singles : ℕ → (ℕ → ℕ → Grant) → List Queue → Outcome (List DescList × List Lane)
unfolding single_rounds single_lane
dispatch_singles dma_prep_interrupt grants queues =
    single_rounds dma_prep_interrupt grants (max_entries (map single_lane queues)) 0
      (map single_lane queues)
