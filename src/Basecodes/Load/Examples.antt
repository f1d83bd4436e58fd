-- ===== src/Basecodes/Load/Examples.antt =====
-- Loads of kernel_test_basecodes.c.
use dsa_test.Base.{
  ℕ, ◌+◌, ◌*◌, ◌^◌, ◌≤◌, ◌<◌, ◌≡◌, refl, true, false, Option, none, some, List, [], ◌∷◌, pos,
  returns, arith, inl,
}
use dsa_test.Desc.{Desc, Wq, zeroed, enabled}
use dsa_test.Engine.Bytes.{counting}
use dsa_test.Retry.{moved}
use dsa_test.Retry.Resume.{completed}
use dsa_test.Retry.Bytes.{byte_effects, faulting, completed-faulting}
use dsa_test.Probe.{IdxdWq}
use dsa_test.Basecodes.{Report, page_size, page_order}
use dsa_test.Basecodes.Region.{FourRuns}
use dsa_test.Basecodes.Copied.{submitted, memory_of}
use dsa_test.Basecodes.Success.{Succeeds}
use dsa_test.Basecodes.Load.{Os, Held, my_init}
use dsa_test.Basecodes.Load.Cases.{PageLoadCases, page_load-cases}
use dsa_test.Basecodes.Load.Copied.{page_load-copies}

abbrev the_wq : IdxdWq
the_wq = record { enabled = true; dmaengine = true; client_count = 0 }

abbrev two_wqs : List IdxdWq
two_wqs = the_wq ∷ the_wq ∷ []

abbrev eight : List (Option (List IdxdWq))
eight = none ∷ none ∷ some two_wqs ∷ none ∷ none ∷ none ∷ none ∷ none ∷ []

abbrev a_queue : Wq
a_queue = record {
  state = enabled;
  num_descs = 16;
  idxd = record {
    max_xfer_bytes = 0x20000000;
    max_batch_size = 4;
    compl_size = 32;
    pasid_enabled = true;
    pasid = 5;
  };
}

abbrev a_desc : Desc
a_desc = record { id = 0; hw = zeroed; compl_dma = 0x700; txd_flags = 0 }

abbrev an_os : Os
an_os = record {
  alloc_pages = λ i. some (i + 1);
  contiguous = λ page. true;
  devices = eight;
  get_channel = λ w. true;
  queue = λ w. a_queue;
  dma_map_page = λ page. page * 0x200000;
  dma_prep_interrupt = 1;
  desc = some a_desc;
  attempts = faulting;
  differs = false;
}

abbrev four : FourRuns an_os.alloc_pages an_os.contiguous
four = record {
  page1 = 1;
  page2 = 2;
  page3 = 3;
  page4 = 4;
  given1 = refl;
  given2 = refl;
  given3 = refl;
  given4 = refl;
  whole1 = refl;
  whole2 = refl;
  whole3 = refl;
}

page_load-cases_example : PageLoadCases an_os
page_load-cases_example = page_load-cases an_os

few : (j : ℕ) → completed faulting 0 j ≤ page_size * 2 ^ page_order
few j = omega (arith, completed-faulting j)

one_fault : Succeeds faulting 0 0 1
one_fault = record {
  quiet = λ i n h. refl;
  faults = λ i h. let e : i ≡ 0 = omega arith in rw e refl;
  success = refl;
}

page_load-copies_example :
    (s : Held) × (r : Report) × (d : Desc) × (my_init an_os ≡ returns (pos 0, s))
    × (s.copied ≡ some r)
    × (r.exit ≡ moved)
    × (submitted 1 a_queue (some a_desc) 0x400000 0x200000 ≡ some d)
    × ((i : ℕ)
        → i < page_size * 2 ^ page_order
        → memory_of (byte_effects faulting) d counting (0x400000 + i) ≡ counting (0x200000 + i))
page_load-copies_example =
    page_load-copies an_os four two_wqs the_wq a_queue a_desc (byte_effects faulting) counting 0 1
      refl (omega arith) refl refl refl refl (λ w. refl) (λ w. refl) refl (omega arith)
      (omega arith) refl
      (record { src = omega arith; dst = omega arith; apart = inl (omega arith) }) few one_fault
      (omega arith) (omega arith)
