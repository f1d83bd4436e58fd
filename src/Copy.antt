-- ===== src/Copy.antt =====
-- How the single-queue tests cut a pair of scatterlists into descriptors: the submit phases of
-- `dsa_copy` in DSA_Kernelspace_Test/1.kernel_test/kernel_test_sgtable_batch.c (batches of at most
-- `max_batch_size` entries) and in DSA_Kernelspace_Test/1.kernel_test/kernel_test_sgtable.c (loops
-- of at most `num_descs` descriptors, `Copy.Loop`).
--
-- `grants i` is what the kernel gives to call `i` of the functions of `Desc`. The sizes of the
-- tables are positive, so that their first entries are there. A submission that the driver refuses
-- ends `dsa_copy` at once, and is left out here.
pub mod Batches
pub mod Loop
pub mod Cuts
pub mod Finish
pub mod Sizes
mod Examples
use dsa_test.Base.{
  ℕ, zero, suc, ◌+◌, ◌*◌, ◌-◌, ◌/◌, ◌%◌, min, Bool, true, false, ◌&&◌, Option, none, some, List, [],
  ◌∷◌, ltb, leb, ◌==◌, if◌then◌else◌, Outcome, returns, fault, ◌>>=◌, deref,
}
use dsa_test.Desc.{
  HwDesc, Desc, Wq, Seg, Grant, BatchInfo, DescList, BatchTask, submit_flags,
  idxd_desc_dma_submit_memcpy, idxd_desc_dma_submit_memcpy_sg,
}

-- `a / b`, and one more for a rest
pub div_up : ℕ → ℕ → ℕ
div_up a b = a / b + (if a % b == 0 then 0 else 1)

-- The entry of a list, for a pointer that is not NULL.
pub first : List Seg → Outcome Seg
first [] = fault
first (s ∷ ss) = returns s

-- A descriptor for the first entries of two chains. A NULL one is read when it is submitted.
pub single : ℕ → Wq → Grant → List Seg → List Seg → Outcome DescList
unfolding first
single dma_prep_interrupt wq g dsts srcs = do
  dst ← first dsts
  src ← first srcs
  d ← deref (
      idxd_desc_dma_submit_memcpy dma_prep_interrupt wq g.alloc dst.dma_address src.dma_address
        (min src.dma_len dst.dma_len) submit_flags)
  returns (record { desc = some d; completion = 0; batch_info = none })

-- `left_ents > max ? max : left_ents`
abbrev pub chunk_size : ℕ → ℕ → ℕ
chunk_size max left_ents = if ltb max left_ents then max else left_ents

-- The loop over the batches, with `n` left, from number `i`. `int left_ents` is not negative, since
-- `i` is below the number of batches.
pub batches : ℕ → Wq → (ℕ → Grant) → ℕ → ℕ → ℕ → List Seg → List Seg → Outcome (List DescList)
batches dma_prep_interrupt wq grants total zero i dsts srcs = returns []
batches dma_prep_interrupt wq grants total (suc n) i dsts srcs =
    let left_ents = total - i * wq.idxd.max_batch_size in
    idxd_desc_dma_submit_memcpy_sg dma_prep_interrupt wq (grants i) dsts srcs
      (chunk_size wq.idxd.max_batch_size left_ents) submit_flags
    >>= λ made. deref made >>= λ task.
        batches dma_prep_interrupt wq grants total n (i + 1) task.next_sg_dst task.next_sg_src
        >>= λ rest. returns (task.desc_list ∷ rest)

-- The list entries that `dsa_copy` of kernel_test_sgtable_batch.c makes and submits, for tables of
-- `nents1` and `nents2` mapped entries.
pub batch_lists : ℕ → Wq → (ℕ → Grant) → ℕ → ℕ → List Seg → List Seg → Outcome (List DescList)
unfolding batches single div_up
batch_lists dma_prep_interrupt wq grants nents1 nents2 srcs dsts =
    let total = if ltb nents2 nents1 then nents2 else nents1 in
    if ltb 1 nents1 && ltb 1 nents2
    then batches dma_prep_interrupt wq grants total (div_up total wq.idxd.max_batch_size) 0 dsts
        srcs
    else (single dma_prep_interrupt wq (grants 0) dsts srcs >>= λ l. returns (l ∷ []))
