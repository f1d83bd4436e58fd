-- ===== src/Engine/Examples.antt =====
-- A byte-wise engine, and pages that two queues copy.
use dsa_test.Base.{
  ◌*◌, ◌≢◌, dec_lt, ℕ, ◌+◌, ◌≤◌, ◌<◌, ◌≡◌, refl, inl, inr, true, some, List, [], ◌∷◌, map, concat,
  arith, returns, Has, here, there, ◌*◌, false,
}
use dsa_test.Desc.{Desc, Wq, Seg, Grant, DescList, zeroed, enabled}
use dsa_test.Copy.Cuts.{NoSingle}
use dsa_test.Copy.Batches.{asked_all}
use dsa_test.Dispatch.{Queue, Lane, TaskPointer, dispatch}
use dsa_test.Dispatch.Visits.{IsServable}
use dsa_test.Engine.{carry_out, area, Disjoint, IsApart, apart_nil, apart_cons}
use dsa_test.Engine.Bytes.{byte_engine, counting}
use dsa_test.Engine.Areas.{SameSizes}
use dsa_test.Engine.Copied.{dispatch-copies, all_dsts, all_srcs}
use dsa_test.Engine.Pages.{with_tables}
use dsa_test.Engine.Whole.{random_arr-copies}
use dsa_test.Shuffle.{random_arr}
use dsa_test.Shuffle.Uniform.{range}
use dsa_test.Tables.{table_nents, TablePair, vmalloc_to_sgtable}

abbrev a_wq : Wq
a_wq = record {
  state = enabled;
  num_descs = 16;
  idxd = record {
    max_xfer_bytes = 0x20000000;
    max_batch_size = 2;
    compl_size = 32;
    pasid_enabled = true;
    pasid = 5;
  };
}

abbrev seg : ℕ → Seg
seg a = record { dma_address = a; dma_len = 4096 }

abbrev pages : Queue
pages = record {
  wq = a_wq;
  srcs = seg 0x10000 ∷ seg 0x20000 ∷ [];
  dsts = seg 0x50000 ∷ seg 0x60000 ∷ [];
}

abbrev queues : List Queue
queues = pages ∷ []

apart_from_srcs : (a : ℕ) → 0x30000 ≤ a → (s : Seg) → Has s pages.srcs → Disjoint (seg a) s
apart_from_srcs a h s here = inr (omega arith)
apart_from_srcs a h s (there here) = inr (omega arith)
apart_from_srcs a h s (there (there i)) = elim i [ ]

apart_from_dst : (d : Seg) → Has d (seg 0x60000 ∷ []) → Disjoint (seg 0x50000) d
apart_from_dst d here = inl (omega arith)
apart_from_dst d (there i) = elim i [ ]

no_dst : (d : Seg) → Has d [] → Disjoint (seg 0x60000) d
no_dst d i = elim i [ ]

pages-IsApart : IsApart pages.srcs pages.dsts
pages-IsApart =
    apart_cons (apart_from_srcs 0x50000 (omega arith)) apart_from_dst
      (apart_cons (apart_from_srcs 0x60000 (omega arith)) no_dst apart_nil)

abbrev a_desc : ℕ → Desc
a_desc i = record { id = i; hw = zeroed; compl_dma = 0x700; txd_flags = 0 }

abbrev grants : ℕ → Grant
grants i = record { alloc = some (a_desc i); compls_addr = 0x1000; hw_descs_addr = 0x2000 }

abbrev at_once : ℕ → ℕ
at_once k = 0

queues-IsServable : (q : Queue) → Has q queues → IsServable q
queues-IsServable q here = record {
  on = refl;
  sized = omega arith;
  many_srcs = omega arith;
  many_dsts = omega arith;
  pairs = λ i e. ground arith;
}
queues-IsServable q (there i) = elim i [ ]

queues-SameSizes : (q : Queue) → Has q queues → SameSizes q.dsts q.srcs
queues-SameSizes q here = refl
queues-SameSizes q (there i) = elim i [ ]

dispatch-copies_example :
    (entries : List DescList) × (lanes : List Lane) × (task : TaskPointer) × (dispatch 1
        (λ i j. grants i)
        queues
      ≡ returns (entries, lanes, task))
    × (area
          (carry_out byte_engine (concat (map (λ l. asked_all l.sent) lanes)) counting)
          (all_dsts queues)
        ≡ area counting (all_srcs queues))
dispatch-copies_example =
    dispatch-copies byte_engine counting 1 (λ i j. grants i) (λ i j. (a_desc i, refl)) queues
      queues-IsServable queues-SameSizes pages-IsApart

-- Four pages in a drawn order, for two queues
abbrev draws : ℕ → ℕ
draws k = 6 + 10 * k

abbrev kmalloced : List ℕ
kmalloced = 9 ∷ 9 ∷ 0 ∷ 7 ∷ []

abbrev src_page : ℕ → ℕ
src_page k = 0 + k * 4096

abbrev dst_page : ℕ → ℕ
dst_page k = 0x10000 + k * 4096

abbrev two_queues : List Wq
two_queues = a_wq ∷ a_wq ∷ []

two_queues-ready :
    (wq : Wq) → Has wq two_queues → (wq.state ≡ enabled) × (0 < wq.idxd.max_batch_size)
two_queues-ready wq here = (refl, omega arith)
two_queues-ready wq (there here) = (refl, omega arith)
two_queues-ready wq (there (there i)) = elim i [ ]

two_queues-pairs : (wq : Wq) → Has wq two_queues → NoSingle 2 wq.idxd.max_batch_size
two_queues-pairs wq here = λ i e. ground arith
two_queues-pairs wq (there here) = λ i e. ground arith
two_queues-pairs wq (there (there i)) = elim i [ ]

from_srcs : (k j : ℕ) → k < 4 → j < 4 → Disjoint (seg (dst_page k)) (seg (src_page j))
from_srcs k j h g = inr (omega arith)

from_dsts : (k j : ℕ) → k < 4 → j < 4 → k ≢ j → Disjoint (seg (dst_page k)) (seg (dst_page j))
from_dsts k j h g other = elim (dec_lt k j) [
  | yes before ↦ inl (omega arith)
  | no after ↦ inr (omega arith)
]

random_arr-copies_example :
    (tables : List TablePair) × (entries : List DescList) × (lanes : List Lane)
    × (task : TaskPointer) × (vmalloc_to_sgtable
          (λ k. false)
          (λ a. some a)
          0
          0x10000
          (random_arr draws 4 kmalloced)
          4
          2
        ≡ some tables)
    × (dispatch 1 (λ i j. grants i) (with_tables two_queues seg tables)
        ≡ returns (entries, lanes, task))
    × (area
          (carry_out byte_engine (concat (map (λ l. asked_all l.sent) lanes)) counting)
          (map (λ k. seg (dst_page k)) (range 0 4))
        ≡ area counting (map (λ k. seg (src_page k)) (range 0 4)))
unfolding table_nents
random_arr-copies_example =
    random_arr-copies byte_engine counting 1 two_queues (λ i j. grants i) (λ i j. (a_desc i, refl))
      two_queues-ready (λ a. some a) draws kmalloced 4 refl (omega arith) refl (omega arith)
      two_queues-pairs (λ k. false) 0 0x10000 src_page dst_page (λ k. refl) (λ k h. refl)
      (λ k h. refl) seg (λ page. refl) from_srcs from_dsts
