-- ===== src/Desc/Examples.antt =====
-- Descriptors for two pages.
use dsa_test.Base.{◌≡◌, refl, some, List, [], ◌∷◌, returns, arith, true}
use dsa_test.Desc.{
  Desc, Wq, Seg, Grant, BatchTask, zeroed, enabled, submit_flags, opcode_memmove,
  idxd_desc_dma_submit_memcpy_sg,
}
use dsa_test.Desc.Batch.{IsBatch, submit_memcpy_sg-IsBatch}

abbrev a_wq : Wq
a_wq = record {
  state = enabled;
  num_descs = 16;
  idxd = record {
    max_xfer_bytes = 0x20000000;
    max_batch_size = 4;
    compl_size = 32;
    pasid_enabled = true;
    pasid = 5;
  };
}

abbrev a_desc : Desc
a_desc = record { id = 0; hw = zeroed; compl_dma = 0x700; txd_flags = 0 }

abbrev a_grant : Grant
a_grant = record { alloc = some a_desc; compls_addr = 0x1000; hw_descs_addr = 0x2000 }

abbrev two_dsts : List Seg
two_dsts =
    record { dma_address = 0x8000; dma_len = 4096 }
    ∷ record { dma_address = 0xa000; dma_len = 4096 }
    ∷ []

abbrev two_srcs : List Seg
two_srcs =
    record { dma_address = 0x30000; dma_len = 4096 }
    ∷ record { dma_address = 0x50000; dma_len = 4096 }
    ∷ []

submit_memcpy_sg-IsBatch_example :
    (t : BatchTask) × (idxd_desc_dma_submit_memcpy_sg 1 a_wq a_grant two_dsts two_srcs 2
        submit_flags
      ≡ returns (some t))
    × IsBatch a_wq a_grant two_dsts two_srcs 2 t
submit_memcpy_sg-IsBatch_example =
    submit_memcpy_sg-IsBatch 1 a_wq a_grant a_desc two_dsts two_srcs 2 submit_flags refl refl
      (omega arith) (omega arith)

-- What the call gives for `a_desc`.
abbrev filled_desc : Desc
filled_desc = record a_desc {
  hw = record zeroed {
    flags = 0x1c;
    opcode = opcode_memmove;
    src_addr = 0x30000;
    dst_addr = 0x8000;
    xfer_size = 4096;
    completion_addr = 0x700;
  };
  txd_flags = submit_flags;
}
