-- ===== src/Copy/Finish/Examples.antt =====
-- Three entries, and batches of at most three.
use dsa_test.Base.{ℕ, ◌+◌, ◌≡◌, refl, Bool, true, false, some, List, [], ◌∷◌, map, returns, arith}
use dsa_test.Desc.{Desc, Wq, Seg, Grant, DescList, zeroed, enabled}
use dsa_test.Desc.Batch.{entrywise}
use dsa_test.Copy.Batches.{asked_all}
use dsa_test.Copy.Loop.{poll_retry_max, poll_loop}
use dsa_test.Copy.Finish.{Entry, numbered, poll_entries, finished, SgTables, released, dsa_copy}
use dsa_test.Copy.Finish.Mappings.{balance, poll_entries-unmaps_once}
use dsa_test.Copy.Finish.Ends.{strip, poll_entries-poll_loop}
use dsa_test.Copy.Finish.Timeout.{silent, dsa_copy-gives_up}

abbrev a_wq : Wq
a_wq = record {
  state = enabled;
  num_descs = 2;
  idxd = record {
    max_xfer_bytes = 0x20000000;
    max_batch_size = 3;
    compl_size = 32;
    pasid_enabled = true;
    pasid = 5;
  };
}

abbrev a_desc : ℕ → Desc
a_desc i = record { id = i; hw = zeroed; compl_dma = 0x700; txd_flags = 0 }

abbrev seg : ℕ → Seg
seg a = record { dma_address = a; dma_len = 4096 }

abbrev srcs : List Seg
srcs = seg 0x10000 ∷ seg 0x20000 ∷ seg 0x30000 ∷ []

abbrev dsts : List Seg
dsts = seg 0x50000 ∷ seg 0x60000 ∷ seg 0x70000 ∷ []

abbrev grants : ℕ → Grant
grants i = record { alloc = some (a_desc i); compls_addr = 0x1000; hw_descs_addr = 0x2000 }

abbrev willing : ℕ → Bool
willing k = false

-- An entry that succeeds, and one that fails.
abbrev entry : ℕ → Entry
entry i = record {
  number = i;
  item = record {
    desc = some (a_desc i);
    completion = 0;
    batch_info = some (record {
      sub_compl = [];
      sub_hw_descs = [];
      compls_addr = 0x1000 + i;
      hw_descs_addr = 0x2000 + i;
      batch_compls_size = 64;
      batch_hw_descs_size = 128;
    });
  };
}

abbrev one_fails : ℕ → ℕ → ℕ
one_fails poll number = number + 1

poll_entries-unmaps_once_example :
    balance 0x2001 (poll_entries one_fails 5 0 2 0 (entry 0 ∷ entry 1 ∷ []) []) ≡ 1
poll_entries-unmaps_once_example =
    poll_entries-unmaps_once 0x2001 one_fails 5 0 2 0 (entry 0 ∷ entry 1 ∷ [])

poll_entries-poll_loop_example :
    poll_loop one_fails 5 0 2 0 (map strip (entry 0 ∷ entry 1 ∷ [])) ≡ (
      map strip (poll_entries one_fails 5 0 2 0 (entry 0 ∷ entry 1 ∷ []) []).0,
      (poll_entries one_fails 5 0 2 0 (entry 0 ∷ entry 1 ∷ []) []).2,
    )
poll_entries-poll_loop_example =
    poll_entries-poll_loop one_fails 5 0 2 0 (entry 0 ∷ entry 1 ∷ []) []

abbrev both_mapped : SgTables
both_mapped = record { mapped1 = true; mapped2 = true; entries1 = true; entries2 = true }

dsa_copy-gives_up_example :
    (ls : List DescList) × (asked_all ls ≡ entrywise dsts srcs)
    × (dsa_copy 1 a_wq grants willing silent both_mapped 3 3 srcs dsts
        ≡ returns (finished (numbered 0 ls) [] (poll_retry_max + 1) released))
dsa_copy-gives_up_example =
    dsa_copy-gives_up 1 a_wq grants willing both_mapped refl (λ i. (a_desc i, refl)) (λ k. refl)
      (omega arith) srcs dsts (omega arith) (omega arith) (λ i e. ground arith)
