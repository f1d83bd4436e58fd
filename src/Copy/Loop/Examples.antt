-- ===== src/Copy/Loop/Examples.antt =====
-- A descriptor whose record shows an error.
use dsa_test.Base.{
  ◌+◌, ℕ, ◌≡◌, refl, false, true, some, List, [], ◌∷◌, ◌++◌, arith, Has, here, returns,
}
use dsa_test.Desc.{
  Desc, Wq, Seg, zeroed, enabled, idxd_desc_dma_submit_memcpy, idxd_prep_desc_common, op_flag_setup,
}
use dsa_test.Copy.Loop.{Entry, Kernel, finished, rounds}
use dsa_test.Copy.Loop.Submitted.{failed_submitted_again}

abbrev a_desc : ℕ → Desc
a_desc i = record { id = i; hw = zeroed; compl_dma = 0x700; txd_flags = 0 }

abbrev failing : Entry
failing = record { number = 0; desc = some (a_desc 0); completion = false }

abbrev a_wq : Wq
a_wq = record {
  state = enabled;
  num_descs = 1;
  idxd = record {
    max_xfer_bytes = 0x20000000;
    max_batch_size = 2;
    compl_size = 32;
    pasid_enabled = true;
    pasid = 5;
  };
}

abbrev os : Kernel
os = record {
  dma_prep_interrupt = 1;
  alloc = λ i. some (a_desc i);
  refuses = λ k. false;
  status = λ loop poll number. 3;
}

abbrev segs : ℕ → List Seg
segs a =
    record { dma_address = a; dma_len = 64 } ∷ record { dma_address = a + 64; dma_len = 64 } ∷ []

-- The descriptor of a new entry.
abbrev filled : ℕ → ℕ → Desc
filled i at = record {
  id = i;
  hw = record zeroed {
    flags = 12;
    opcode = 3;
    completion_addr = 0x700;
    src_addr = 0x20000 + at;
    dst_addr = 0x10000 + at;
    xfer_size = 64;
  };
  compl_dma = 0x700;
  txd_flags = 270;
}

abbrev sent : List Desc
sent = a_desc 0 ∷ filled 1 0 ∷ a_desc 0 ∷ filled 1 0 ∷ filled 2 64 ∷ []

abbrev failed : ℕ → Desc → Entry
failed i d = record { number = i; desc = some d; completion = true }

abbrev kept : List Entry
kept = failed 0 (a_desc 0) ∷ failed 1 (filled 1 0) ∷ failed 2 (filled 2 64) ∷ []

two_rounds :
    rounds os a_wq 3 2 1 (segs 0x10000) (segs 0x20000) (failing ∷ []) [] 0
    ≡ returns (finished sent kept 2)
unfolding rounds idxd_desc_dma_submit_memcpy idxd_prep_desc_common op_flag_setup
two_rounds = refl

failed_submitted_again_example :
    (d : Desc) × (this next later : List Desc) × (failing.desc ≡ some d)
    × (sent ≡ [] ++ (this ++ (next ++ later)))
    × Has d this
    × Has d next
failed_submitted_again_example =
    failed_submitted_again os a_wq 3 0 1 (segs 0x10000) (segs 0x20000) (failing ∷ []) [] 0 sent kept
      2 two_rounds failing here (λ poll e. absurd (omega arith))
