-- ===== src/Copy/Examples.antt =====
-- Three entries in batches of two.
use dsa_test.Base.{ℕ, ◌≡◌, ◌<◌, ◌≤◌, refl, true, some, List, [], ◌∷◌, map, returns, arith, Has}
use dsa_test.Desc.{Desc, DescList, Wq, Seg, Grant, zeroed, enabled}
use dsa_test.Copy.{batch_lists}
use dsa_test.Copy.Batches.{desc_count}
use dsa_test.Copy.Sizes.{sum, batch_lists-sizes}

abbrev a_wq : Wq
a_wq = record {
  state = enabled;
  num_descs = 2;
  idxd = record {
    max_xfer_bytes = 0x20000000;
    max_batch_size = 2;
    compl_size = 32;
    pasid_enabled = true;
    pasid = 5;
  };
}

abbrev a_desc : ℕ → Desc
a_desc i = record { id = i; hw = zeroed; compl_dma = 0x700; txd_flags = 0 }

abbrev seg : ℕ → Seg
seg a = record { dma_address = a; dma_len = 4096 }

abbrev three_srcs : List Seg
three_srcs = seg 0x10000 ∷ seg 0x20000 ∷ seg 0x30000 ∷ []

abbrev three_dsts : List Seg
three_dsts = seg 0x50000 ∷ seg 0x60000 ∷ seg 0x70000 ∷ []

abbrev grants : ℕ → Grant
grants i = record { alloc = some (a_desc i); compls_addr = 0x1000; hw_descs_addr = 0x2000 }

batch_lists-sizes_example :
    (ls : List DescList) × (batch_lists 1 a_wq grants 3 3 three_srcs three_dsts ≡ returns ls)
    × ((l : DescList) → Has l ls → (0 < desc_count l) × (desc_count l ≤ 2))
    × (sum (map desc_count ls) ≡ 3)
batch_lists-sizes_example =
    batch_lists-sizes 1 a_wq grants refl (λ i. (a_desc i, refl)) (omega arith) three_srcs three_dsts
      (omega arith) (omega arith)
