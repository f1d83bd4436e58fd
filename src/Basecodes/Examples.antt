-- ===== src/Basecodes/Examples.antt =====
-- Runs of kernel_test_basecodes.c.
use dsa_test.Base.{◌*◌, ◌^◌, ◌≡◌, ◌<◌, true, false, Option, none, some, ◌↔◌, ◌⊎◌, fault}
use dsa_test.Desc.{Desc, Wq, zeroed, enabled, disabled}
use dsa_test.Retry.{Attempt}
use dsa_test.Basecodes.{Retrying, dsa_copy, page_size, page_order}
use dsa_test.Basecodes.Rounds.{dsa_copy-fault_iff}

abbrev a_wq : Wq
a_wq = record {
  state = enabled;
  num_descs = 16;
  idxd = record {
    max_xfer_bytes = 0x20000000;
    max_batch_size = 4;
    compl_size = 32;
    pasid_enabled = true;
    pasid = 5;
  };
}

abbrev a_start : Retrying
a_start = record {
  poll = 0;
  faults = 0;
  hw = record zeroed { src_addr = 0x1000; dst_addr = 0x9000; xfer_size = 8192 };
}

-- The record shows the same page fault for ever.
abbrev stale : Attempt
stale = record {
  rejects = λ i. false;
  busy = λ i. false;
  comp = record { status = 3; bytes_completed = 100 };
}

abbrev no_desc : Option Desc
no_desc = none

dsa_copy-fault_iff_example :
    (dsa_copy 1 none no_desc (λ k. stale) 0x9000 0x1000 false ≡ fault)
    × ((dsa_copy 1 (some a_wq) no_desc (λ k. stale) 0x9000 0x1000 false ≡ fault) ↔ (
        (a_wq.state ≡ disabled)
        ⊎ (a_wq.idxd.max_xfer_bytes < page_size * 2 ^ page_order)
        ⊎ (no_desc ≡ none)))
dsa_copy-fault_iff_example = dsa_copy-fault_iff 1 a_wq no_desc (λ k. stale) 0x9000 0x1000 false
