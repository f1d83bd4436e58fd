-- ===== src/Desc.antt =====
-- DSA_Kernelspace_Test/3.kernel_test_N_DSAs/kernel_test.h: the structures of the kernel tests, and
-- the functions that fill in hardware descriptors. Addresses, lengths and flags are numbers below
-- their width. Two of the header's unions are one field each: `src_addr` also holds
-- `desc_list_addr`, and `xfer_size` also holds `desc_count`.
--
-- What the driver and the kernel return enters as arguments: the descriptor that `idxd_alloc_desc`
-- gives (`none` where `IS_ERR` holds of it), the addresses that `dma_map_single` gives, and the
-- value of `DMA_PREP_INTERRUPT`. The `kzalloc` calls, which the code does not check, succeed.
pub mod Flags
pub mod Batch
mod Examples
use dsa_test.Base.{
  ℕ, zero, suc, ◌+◌, ◌*◌, ◌%◌, ◌^◌, Bool, true, false, Option, none, some, List, [], ◌∷◌, bit_and,
  bit_or, ltb, ◌==◌, if◌then◌else◌, Outcome, returns, fault, ◌>>=◌,
}

-- `enum idxd_wq_state`, as far as the tests look at it
pub data WqState : Type 0 where
  disabled enabled : WqState

-- `IDXD_OP_FLAG_*`
abbrev pub op_flag_bof : ℕ
op_flag_bof = 0x0002

abbrev pub op_flag_crav : ℕ
op_flag_crav = 0x0004

abbrev pub op_flag_rcr : ℕ
op_flag_rcr = 0x0008

abbrev pub op_flag_rci : ℕ
op_flag_rci = 0x0010

abbrev pub op_flag_cc : ℕ
op_flag_cc = 0x0100

-- What every test passes: RCR | CRAV | CC | BOF.
abbrev pub submit_flags : ℕ
submit_flags = bit_or (bit_or (bit_or op_flag_rcr op_flag_crav) op_flag_cc) op_flag_bof

abbrev pub opcode_batch : ℕ
opcode_batch = 1

abbrev pub opcode_memmove : ℕ
opcode_memmove = 3

-- `sizeof(struct dsa_hw_desc)`
abbrev pub hw_desc_size : ℕ
hw_desc_size = 64

-- `struct dsa_hw_desc`
pub record HwDesc : Type 0 where
  pub pasid : ℕ
  pub priv : ℕ
  pub flags : ℕ
  pub opcode : ℕ
  pub completion_addr : ℕ
  pub src_addr : ℕ
  pub dst_addr : ℕ
  pub xfer_size : ℕ

-- what `kzalloc` leaves in a descriptor
abbrev pub zeroed : HwDesc
zeroed = record {
  pasid = 0;
  priv = 0;
  flags = 0;
  opcode = 0;
  completion_addr = 0;
  src_addr = 0;
  dst_addr = 0;
  xfer_size = 0;
}

-- `struct idxd_desc`
pub record Desc : Type 0 where
  pub id : ℕ
  pub hw : HwDesc
  pub compl_dma : ℕ
  pub txd_flags : ℕ

-- `struct idxd_device`
pub record Device : Type 0 where
  pub max_xfer_bytes : ℕ
  pub max_batch_size : ℕ
  pub compl_size : ℕ
  pub pasid_enabled : Bool
  pub pasid : ℕ

-- `struct idxd_wq`
pub record Wq : Type 0 where
  pub state : WqState
  pub num_descs : ℕ
  pub idxd : Device

-- a mapped entry of a scatterlist: `sg_dma_address` and `sg_dma_len`
pub record Seg : Type 0 where
  pub dma_address : ℕ
  pub dma_len : ℕ

-- `struct batch_info`; the sizes are the bit patterns of `int`s
pub record BatchInfo : Type 0 where
  pub sub_compl : List ℕ
  pub sub_hw_descs : List HwDesc
  pub compls_addr : ℕ
  pub hw_descs_addr : ℕ
  pub batch_compls_size : ℕ
  pub batch_hw_descs_size : ℕ

-- `DSA_COMP_SUCCESS`
abbrev pub comp_success : ℕ
comp_success = 1

-- `struct idxd_desc_list`; `none` is a NULL `desc` or `batch_info`
pub record DescList : Type 0 where
  pub desc : Option Desc
  pub completion : ℕ
  pub batch_info : Option BatchInfo

-- `struct batch_task`: where the next batch starts in each chain, and the new list entry
pub record BatchTask : Type 0 where
  pub next_sg_src : List Seg
  pub next_sg_dst : List Seg
  pub desc_list : DescList

-- `op_flag_setup`
unfoldable pub op_flag_setup : ℕ → ℕ → ℕ
op_flag_setup dma_prep_interrupt flags =
    let desc_flags = bit_or op_flag_crav op_flag_rcr in
    if bit_and flags dma_prep_interrupt == 0 then desc_flags else bit_or desc_flags op_flag_rci

-- `idxd_prep_desc_batch`
pub idxd_prep_desc_batch : HwDesc → ℕ → ℕ → ℕ → ℕ → ℕ → HwDesc
idxd_prep_desc_batch hw opcode sub_descs_list_addr desc_count compl flags = record hw {
  flags = flags;
  opcode = opcode;
  src_addr = sub_descs_list_addr;
  xfer_size = desc_count;
  priv = 0;
  completion_addr = compl;
}

-- `idxd_prep_desc_common`: the `u64` length is cut to the 32 bits of `xfer_size`.
unfoldable pub idxd_prep_desc_common : HwDesc → ℕ → ℕ → ℕ → ℕ → ℕ → ℕ → HwDesc
idxd_prep_desc_common hw opcode addr_f1 addr_f2 len compl flags = record hw {
  flags = flags;
  opcode = opcode;
  src_addr = addr_f1;
  dst_addr = addr_f2;
  xfer_size = len % 2 ^ 32;
  priv = 0;
  completion_addr = compl;
}

abbrev prepared : ℕ → Desc → ℕ → ℕ → ℕ → ℕ → Desc
prepared dma_prep_interrupt d dma_dest dma_src len flags = record d {
  hw =
      idxd_prep_desc_common d.hw opcode_memmove dma_src dma_dest len d.compl_dma
        (op_flag_setup dma_prep_interrupt flags);
  txd_flags = flags;
}

unfoldable is_enabled : WqState → Bool
is_enabled enabled = true
is_enabled disabled = false

-- `idxd_desc_dma_submit_memcpy`: `none` is NULL. `alloc` is what `idxd_alloc_desc` returns.
unfoldable pub idxd_desc_dma_submit_memcpy : ℕ → Wq → Option Desc → ℕ → ℕ → ℕ → ℕ → Option Desc
unfolding is_enabled
idxd_desc_dma_submit_memcpy dma_prep_interrupt wq alloc dma_dest dma_src len flags =
    if is_enabled wq.state
    then if ltb wq.idxd.max_xfer_bytes len then none else elim alloc [
      | none ↦ none
      | some d ↦ some (prepared dma_prep_interrupt d dma_dest dma_src len flags)
    ]
    else none

-- One round of the loop over the sub-descriptors.
abbrev sub_desc : Device → ℕ → ℕ → ℕ → Seg → Seg → HwDesc
sub_desc idxd desc_flags compls_addr i dst src = record zeroed {
  opcode = opcode_memmove;
  src_addr = src.dma_address;
  dst_addr = dst.dma_address;
  xfer_size = dst.dma_len;
  flags = desc_flags;
  completion_addr = (compls_addr + i * idxd.compl_size) % 2 ^ 64;
  pasid = if idxd.pasid_enabled then idxd.pasid else 0;
}

-- `for_each_2_sg(desc, src, sg_desc, sg_src, ents, i)` of `idxd_desc_dma_submit_memcpy_sg`: `n`
-- rounds from index `i`. It returns the sub-descriptors and the rest of both chains; to go past the
-- end of a chain is to read through NULL.
pub fill_subs :
    Device → ℕ → ℕ → ℕ → ℕ → List Seg → List Seg → Outcome (List HwDesc × List Seg × List Seg)
fill_subs idxd desc_flags compls_addr zero i dsts srcs = returns ([], dsts, srcs)
fill_subs idxd desc_flags compls_addr (suc n) i [] srcs = fault
fill_subs idxd desc_flags compls_addr (suc n) i (d ∷ dsts) [] = fault
fill_subs idxd desc_flags compls_addr (suc n) i (d ∷ dsts) (s ∷ srcs) =
    fill_subs idxd desc_flags compls_addr n (i + 1) dsts srcs >>= λ (subs, dsts', srcs').
    returns (sub_desc idxd desc_flags compls_addr i d s ∷ subs, dsts', srcs')

-- What the kernel gives to one call: the descriptor, and the two mapped addresses.
pub record Grant : Type 0 where
  pub alloc : Option Desc
  pub compls_addr : ℕ
  pub hw_descs_addr : ℕ

replicate_zero : ℕ → List ℕ
replicate_zero zero = []
replicate_zero (suc n) = 0 ∷ replicate_zero n

-- The task that `idxd_desc_dma_submit_memcpy_sg` fills in, from the sub-descriptors and the rest of
-- both chains.
abbrev batch_task :
    ℕ → Device → Grant → Desc → ℕ → ℕ → List HwDesc × List Seg × List Seg → BatchTask
batch_task dma_prep_interrupt idxd g d ents flags (subs, dsts, srcs) = record {
  next_sg_src = srcs;
  next_sg_dst = dsts;
  desc_list = record {
    desc = some (record d {
      hw =
          idxd_prep_desc_batch d.hw opcode_batch g.hw_descs_addr ents d.compl_dma
            (op_flag_setup dma_prep_interrupt flags);
      txd_flags = flags;
    });
    completion = 0;
    batch_info = some (record {
      sub_compl = replicate_zero ents;
      sub_hw_descs = subs;
      compls_addr = g.compls_addr;
      hw_descs_addr = g.hw_descs_addr;
      batch_compls_size = ents * idxd.compl_size % 2 ^ 32;
      batch_hw_descs_size = ents * hw_desc_size % 2 ^ 32;
    });
  };
}

-- `idxd_desc_dma_submit_memcpy_sg`: `none` is NULL.
pub idxd_desc_dma_submit_memcpy_sg :
    ℕ → Wq → Grant → List Seg → List Seg → ℕ → ℕ → Outcome (Option BatchTask)
unfolding is_enabled replicate_zero
idxd_desc_dma_submit_memcpy_sg dma_prep_interrupt wq g dsts srcs ents flags =
    if is_enabled wq.state
    then elim g.alloc [
      | none ↦ returns none
      | some d ↦
          fill_subs wq.idxd (op_flag_setup dma_prep_interrupt flags) g.compls_addr ents 0 dsts srcs
          >>= λ filled. returns (some (batch_task dma_prep_interrupt wq.idxd g d ents flags filled))
    ]
    else returns none
