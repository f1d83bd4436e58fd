-- ===== src/Shuffled/Examples.antt =====
-- Two pages in a drawn order.
use dsa_test.Base.{
  ℕ, ◌+◌, ◌*◌, ◌<◌, ◌≡◌, ◌≢◌, refl, inl, inr, dec_lt, true, false, some, List, [], ◌∷◌, map, length,
  arith, returns,
}
use dsa_test.Desc.{Desc, Wq, Seg, Grant, DescList, zeroed, enabled}
use dsa_test.Copy.{batch_lists}
use dsa_test.Copy.Batches.{asked_all}
use dsa_test.Copy.Finish
use dsa_test.Shuffled.Batches.{shuffled_batches-copies}
use dsa_test.Desc.Batch.{transfer}
use dsa_test.Shuffle.{random_arr}
use dsa_test.Shuffle.Uniform.{range}
use dsa_test.Copy.Loop.{Kernel, finished, dsa_copy}
use dsa_test.Copy.Loop.Polls.{succeeds_at}
use dsa_test.Engine.{carry_out, area, Disjoint}
use dsa_test.Engine.Bytes.{byte_engine, counting}
use dsa_test.Shuffled.{vmalloc_to_sgtable}
use dsa_test.Shuffled.Copied.{shuffled-copies}

abbrev a_wq : Wq
a_wq = record {
  state = enabled;
  num_descs = 1;
  idxd = record {
    max_xfer_bytes = 4096;
    max_batch_size = 2;
    compl_size = 32;
    pasid_enabled = true;
    pasid = 5;
  };
}

abbrev a_desc : ℕ → Desc
a_desc i = record { id = i; hw = zeroed; compl_dma = 0x700; txd_flags = 0 }

abbrev at_once : ℕ → ℕ
at_once i = 0

abbrev os : Kernel
os = record {
  dma_prep_interrupt = 1;
  alloc = λ i. some (a_desc i);
  refuses = λ k. false;
  status = λ loop. succeeds_at at_once;
}

abbrev seg : ℕ → Seg
seg a = record { dma_address = a; dma_len = 4096 }

abbrev draws : ℕ → ℕ
draws k = 3 + 2 * k

abbrev kmalloced : List ℕ
kmalloced = 9 ∷ 9 ∷ []

abbrev src_page : ℕ → ℕ
src_page k = 0 + k * 4096

abbrev dst_page : ℕ → ℕ
dst_page k = 0x10000 + k * 4096

from_srcs : (k j : ℕ) → k < 2 → j < 2 → Disjoint (seg (dst_page k)) (seg (src_page j))
from_srcs k j h g = inr (omega arith)

from_dsts : (k j : ℕ) → k < 2 → j < 2 → k ≢ j → Disjoint (seg (dst_page k)) (seg (dst_page j))
from_dsts k j h g other = elim (dec_lt k j) [
  | yes before ↦ inl (omega arith)
  | no after ↦ inr (omega arith)
]

shuffled-copies_example :
    let arr = random_arr draws 2 kmalloced in
    let tables = vmalloc_to_sgtable false false (λ a. some a) 0 0x10000 arr 2 in
    (log : List Desc) × (poll : ℕ) × (dsa_copy os a_wq (map seg tables.0) (map seg tables.1)
      ≡ returns (finished log [] poll))
    × (area
          (carry_out byte_engine (map (λ d. transfer d.hw) log) counting)
          (map (λ k. seg (dst_page k)) (range 0 2))
        ≡ area counting (map (λ k. seg (src_page k)) (range 0 2)))
shuffled-copies_example =
    shuffled-copies byte_engine counting os a_wq at_once refl (omega arith) (λ i. (a_desc i, refl))
      (λ k. refl) (λ i. omega arith) (λ loop. refl) (omega arith) (omega arith) (λ a. some a) draws
      kmalloced 2 0 0x10000 refl (omega arith) src_page dst_page (λ k h. refl) (λ k h. refl) seg
      (λ page. refl) from_srcs from_dsts

abbrev grants : ℕ → Grant
grants i = record { alloc = some (a_desc i); compls_addr = 0x1000; hw_descs_addr = 0x2000 }

abbrev both_mapped : Finish.SgTables
both_mapped = record { mapped1 = true; mapped2 = true; entries1 = true; entries2 = true }

shuffled_batches-copies_example :
    let tables =
      vmalloc_to_sgtable false false (λ a. some a) 0 0x10000 (random_arr draws 2 kmalloced) 2 in
    let srcs = map seg tables.0 in
    let dsts = map seg tables.1 in
    (ls : List DescList) × (done : List ℕ) × (poll : ℕ) × (batch_lists 1 a_wq grants
        (length srcs)
        (length dsts)
        srcs
        dsts
      ≡ returns ls)
    × (Finish.dsa_copy 1 a_wq grants
          (λ k. false)
          (succeeds_at at_once)
          both_mapped
          (length srcs)
          (length dsts)
          srcs
          dsts
        ≡ returns (Finish.finished [] done poll Finish.released))
    × (area
          (carry_out byte_engine (asked_all ls) counting)
          (map (λ k. seg (dst_page k)) (range 0 2))
        ≡ area counting (map (λ k. seg (src_page k)) (range 0 2)))
shuffled_batches-copies_example =
    shuffled_batches-copies byte_engine counting 1 a_wq grants (λ k. false) at_once both_mapped refl
      (λ i. (a_desc i, refl)) (λ k. refl) (λ k. omega arith) (omega arith) (λ a. some a) draws
      kmalloced 2 0 0x10000 refl (omega arith) (λ i e. ground arith) src_page dst_page (λ k h. refl)
      (λ k h. refl) seg (λ page. refl) from_srcs from_dsts
