-- ===== src/Dispatch/Examples.antt =====
-- Two queues, and batches of two.
use dsa_test.Base.{
  ◌+◌, ℕ, ◌≤◌, ◌≡◌, refl, some, List, [], ◌∷◌, map, length, arith, returns, fault, Has, here, there,
  true,
}
use dsa_test.Desc.{Desc, Wq, Seg, Grant, DescList, zeroed, enabled}
use dsa_test.Desc.Batch.{entrywise}
use dsa_test.Copy.Batches.{asked_all}
use dsa_test.Dispatch.{Queue, Lane, TaskPointer, dispatch, total_entries}
use dsa_test.Dispatch.Visits.{IsServable}
use dsa_test.Dispatch.Served.{dispatch-served}
use dsa_test.Dispatch.DoubleFree.{dispatch-double_free}

abbrev a_wq : Wq
a_wq = record {
  state = enabled;
  num_descs = 16;
  idxd = record {
    max_xfer_bytes = 0x20000000;
    max_batch_size = 3;
    compl_size = 32;
    pasid_enabled = true;
    pasid = 5;
  };
}

abbrev seg : ℕ → Seg
seg a = record { dma_address = a; dma_len = 4096 }

abbrev three : Queue
three = record {
  wq = a_wq;
  srcs = seg 0x10000 ∷ seg 0x20000 ∷ seg 0x30000 ∷ [];
  dsts = seg 0x50000 ∷ seg 0x60000 ∷ seg 0x70000 ∷ [];
}

abbrev two : Queue
two = record {
  wq = a_wq;
  srcs = seg 0x11000 ∷ seg 0x21000 ∷ [];
  dsts = seg 0x51000 ∷ seg 0x61000 ∷ [];
}

abbrev one : Queue
one = record { wq = a_wq; srcs = seg 0x12000 ∷ []; dsts = seg 0x52000 ∷ [] }

abbrev a_desc : ℕ → ℕ → Desc
a_desc i j = record { id = i + j; hw = zeroed; compl_dma = 0x700; txd_flags = 0 }

abbrev grants : ℕ → ℕ → Grant
grants i j = record { alloc = some (a_desc i j); compls_addr = 0x1000; hw_descs_addr = 0x2000 }

abbrev queues : List Queue
queues = three ∷ two ∷ []

queues-IsServable : (q : Queue) → Has q queues → IsServable q
queues-IsServable q here = record {
  on = refl;
  sized = omega arith;
  many_srcs = omega arith;
  many_dsts = omega arith;
  pairs = λ i e. ground arith;
}
queues-IsServable q (there here) = record {
  on = refl;
  sized = omega arith;
  many_srcs = omega arith;
  many_dsts = omega arith;
  pairs = λ i e. ground arith;
}
queues-IsServable q (there (there m)) = elim m [ ]

dispatch-served_example :
    (entries : List DescList) × (lanes : List Lane) × (task : TaskPointer) × (dispatch 1 grants
        queues
      ≡ returns (entries, lanes, task))
    × (map (λ l. asked_all l.sent) lanes ≡ map (λ q. entrywise q.dsts q.srcs) queues)
    × (length entries ≤ total_entries queues)
dispatch-served_example =
    dispatch-served 1 grants (λ i j. (a_desc i j, refl)) queues queues-IsServable

dispatch-double_free_example : dispatch 1 grants (two ∷ one ∷ []) ≡ fault
dispatch-double_free_example =
    dispatch-double_free 1 grants two (one ∷ []) one (omega arith) (omega arith) (omega arith) here
      (omega arith) refl
