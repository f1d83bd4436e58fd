-- ===== src/Desc/Batch.antt =====
-- What `idxd_desc_dma_submit_memcpy_sg` of DSA_Kernelspace_Test/3.kernel_test_N_DSAs/kernel_test.h
-- puts into a batch.
use dsa_test.Base.{
  ◌==◌, Has, here, there, sym, min, ltb, if◌then◌else◌, ℕ, zero, suc, ◌+◌, ◌*◌, ◌%◌, ◌^◌, ◌≤◌, ◌<◌,
  ◌≡◌, refl, ap, ◌⊎◌, some, List, [], ◌∷◌, map, arith, length, get_elem?, take, drop, Outcome,
  returns, fault, ◌++◌, take_nil, ◌∙◌,
}
use dsa_test.Desc.{
  HwDesc, Desc, Device, Wq, Seg, Grant, BatchInfo, BatchTask, enabled, opcode_batch, opcode_memmove,
  op_flag_setup, idxd_prep_desc_batch, batch_task, fill_subs, sub_desc,
  idxd_desc_dma_submit_memcpy_sg,
}

-- A copy that the hardware is asked to make.
pub record Transfer : Type 0 where
  pub src : ℕ
  pub dst : ℕ
  pub len : ℕ

-- What a descriptor by itself makes the engine copy: no byte, unless it is a MEMMOVE.
abbrev pub transfer : HwDesc → Transfer
transfer h = record {
  src = h.src_addr;
  dst = h.dst_addr;
  len = if h.opcode == opcode_memmove then h.xfer_size else 0;
}

-- Entry by entry, from one table to the other.
abbrev pub pairwise : (Seg → Seg → ℕ) → List Seg → List Seg → List Transfer
pairwise size [] srcs = []
pairwise size (d ∷ dsts) [] = []
pairwise size (d ∷ dsts) (s ∷ srcs) =
    record { src = s.dma_address; dst = d.dma_address; len = size d s } ∷ pairwise size dsts srcs

-- Each of the destination entry's length.
abbrev pub entrywise : List Seg → List Seg → List Transfer
entrywise dsts srcs = pairwise (λ d s. d.dma_len) dsts srcs

-- Each of the shorter entry's length.
abbrev pub shortest : List Seg → List Seg → List Transfer
shortest dsts srcs = pairwise (λ d s. min s.dma_len d.dma_len) dsts srcs

pairwise-nil : (size : Seg → Seg → ℕ) (xs : List Seg) → pairwise size xs [] ≡ []
pairwise-nil size [] = refl
pairwise-nil size (x ∷ xs) = refl

pairwise-none : (size : Seg → Seg → ℕ) (xs : List Seg) (n : ℕ) → pairwise size xs (take n []) ≡ []
pairwise-none size xs n = ap (pairwise size xs) (take_nil n) ∙ pairwise-nil size xs

pub pairwise-append :
    (size : Seg → Seg → ℕ) (n m : ℕ) (xs ys : List Seg)
    → pairwise size (take n xs) (take n ys)
        ++ pairwise size (take m (drop n xs)) (take m (drop n ys))
      ≡ pairwise size (take (n + m) xs) (take (n + m) ys)
pairwise-append size zero m xs ys =
    let e : m ≡ 0 + m = omega arith in ap (λ k. pairwise size (take k xs) (take k ys)) e
pairwise-append size (suc n) m [] ys = rw (take_nil m, take_nil (suc n + m))
pairwise-append size (suc n) m (x ∷ xs) [] =
    pairwise-none size (take m (drop n xs)) m
    ∙ sym (pairwise-none size (take (suc n + m) (x ∷ xs)) (suc n + m))
pairwise-append size (suc n) m (x ∷ xs) (y ∷ ys) =
    let e : suc (n + m) ≡ suc n + m = omega arith in
    ap (λ ts. record { src = y.dma_address; dst = x.dma_address; len = size x y } ∷ ts)
      (pairwise-append size n m xs ys)
    ∙ ap (λ k. pairwise size (take k (x ∷ xs)) (take k (y ∷ ys))) e

-- Tables cut to the length of the shorter one ask for the same copies.
pub pairwise-take :
    (size : Seg → Seg → ℕ) (c : ℕ) (dsts srcs : List Seg)
    → (if ltb (length dsts) (length srcs) then length dsts else length srcs) ≤ c
    → pairwise size (take c dsts) (take c srcs) ≡ pairwise size dsts srcs
pairwise-take size zero [] srcs h = refl
pairwise-take size zero (d ∷ dsts) [] h = refl
pairwise-take size zero (d ∷ dsts) (s ∷ srcs) h = absurd (ground arith)
pairwise-take size (suc c) [] srcs h = refl
pairwise-take size (suc c) (d ∷ dsts) [] h = refl
pairwise-take size (suc c) (d ∷ dsts) (s ∷ srcs) h =
    ap (λ ts. record { src = s.dma_address; dst = d.dma_address; len = size d s } ∷ ts)
      (pairwise-take size c dsts srcs (ground arith))

-- Where the hardware reports on sub-descriptor `k`: one completion record after another.
pub slot : ℕ → ℕ → ℕ → ℕ
slot base size k = (base + k * size) % 2 ^ 64

-- What the loop over the sub-descriptors gives, from index `i` on.
pub record Filled (base size i n : ℕ) (dsts srcs : List Seg)
    (r : Outcome (List HwDesc × List Seg × List Seg)) : Type 0 where
  pub subs : List HwDesc
  pub ran : r ≡ returns (subs, drop n dsts, drop n srcs)
  pub copies : map transfer subs ≡ entrywise (take n dsts) (take n srcs)
  pub count : length subs ≡ n
  pub memmoves : (h : HwDesc) → Has h subs → h.opcode ≡ opcode_memmove
  pub slots :
      (k : ℕ) (h : HwDesc) → get_elem? subs k ≡ some h → h.completion_addr ≡ slot base size (i + k)

slots_cons :
    (base size i : ℕ) (h : HwDesc) (subs : List HwDesc)
    → h.completion_addr ≡ slot base size i
    → ((k : ℕ) (g : HwDesc)
        → get_elem? subs k ≡ some g
        → g.completion_addr ≡ slot base size (i + 1 + k))
    → (k : ℕ) (g : HwDesc) → get_elem? (h ∷ subs) k ≡ some g
    → g.completion_addr ≡ slot base size (i + k)
slots_cons base size i h subs first rest zero g e =
    let same : i + 0 ≡ i = omega arith in rw same (ground arith)
slots_cons base size i h subs first rest (suc k) g e =
    let next : i + suc k ≡ i + 1 + k = omega arith in rw next (rest k g e)

memmoves_cons :
    (g : HwDesc) (subs : List HwDesc)
    → g.opcode ≡ opcode_memmove
    → ((h : HwDesc) → Has h subs → h.opcode ≡ opcode_memmove)
    → (h : HwDesc) → Has h (g ∷ subs)
    → h.opcode ≡ opcode_memmove
memmoves_cons g subs first rest h here = first
memmoves_cons g subs first rest h (there i) = rest h i

module _ (idxd : Device) (flags base : ℕ) where
  pub fill_subs-Filled :
      (n i : ℕ) (dsts srcs : List Seg)
      → n ≤ length dsts
      → n ≤ length srcs
      → Filled base idxd.compl_size i n dsts srcs (fill_subs idxd flags base n i dsts srcs)
  unfolding fill_subs slot
  fill_subs-Filled zero i dsts srcs hd hs = record {
    subs = [];
    ran = refl;
    copies = refl;
    count = refl;
    memmoves = λ h i. elim i [ ];
    slots = λ k h e. cc;
  }
  fill_subs-Filled (suc n) i [] srcs hd hs = absurd (omega arith)
  fill_subs-Filled (suc n) i (d ∷ dsts) [] hd hs = absurd (omega arith)
  fill_subs-Filled (suc n) i (d ∷ dsts) (s ∷ srcs) hd hs =
      let rest = fill_subs-Filled n (i + 1) dsts srcs (omega arith) (omega arith) in
      record {
        subs = sub_desc idxd flags base i d s ∷ rest.subs;
        ran = rw rest.ran;
        copies = rw rest.copies;
        count = ap suc rest.count;
        memmoves = memmoves_cons _ rest.subs refl rest.memmoves;
        slots = slots_cons base idxd.compl_size i _ rest.subs refl rest.slots;
      }

  -- A chain that is too short is read past its end.
  pub fill_subs-fault :
      (n i : ℕ) (dsts srcs : List Seg)
      → (length dsts < n) ⊎ (length srcs < n)
      → fill_subs idxd flags base n i dsts srcs ≡ fault
  unfolding fill_subs
  fill_subs-fault zero i dsts srcs h = absurd (omega arith)
  fill_subs-fault (suc n) i [] srcs h = refl
  fill_subs-fault (suc n) i (d ∷ dsts) [] h = refl
  fill_subs-fault (suc n) i (d ∷ dsts) (s ∷ srcs) h =
      rw (fill_subs-fault n (i + 1) dsts srcs (omega arith))

-- What a batch is made of.
pub record IsBatch (wq : Wq) (g : Grant) (dsts srcs : List Seg) (ents : ℕ) (t : BatchTask)
    : Type 0 where
  pub batch : Desc
  pub info : BatchInfo
  pub desc_list : t.desc_list ≡ record { desc = some batch; completion = 0; batch_info = some info }
  pub opcode : batch.hw.opcode ≡ opcode_batch
  pub list_addr : batch.hw.src_addr ≡ g.hw_descs_addr
  pub list_mapped : info.hw_descs_addr ≡ g.hw_descs_addr
  pub desc_count : batch.hw.xfer_size ≡ ents
  pub count : length info.sub_hw_descs ≡ ents
  pub memmoves : (h : HwDesc) → Has h info.sub_hw_descs → h.opcode ≡ opcode_memmove
  pub copies : map transfer info.sub_hw_descs ≡ entrywise (take ents dsts) (take ents srcs)
  pub next_dst : t.next_sg_dst ≡ drop ents dsts
  pub next_src : t.next_sg_src ≡ drop ents srcs
  pub slots :
      (k : ℕ) (h : HwDesc)
      → get_elem? info.sub_hw_descs k ≡ some h
      → h.completion_addr ≡ slot g.compls_addr wq.idxd.compl_size k

-- On an enabled queue, with a descriptor from the driver and chains of at least `ents` entries, the
-- call returns a batch: its descriptor is a BATCH of `ents` descriptors at the mapped address of the
-- list, which holds `ents` MEMMOVEs. These copy the first `ents` entries of one chain to those of the
-- other; number `k` reports at the address that lies `k` times the size of a record behind
-- `compls_addr`, modulo 2 ^ 64; and the task holds where both chains go on.
pub submit_memcpy_sg-IsBatch :
    (p : ℕ) (wq : Wq) (g : Grant) (d : Desc) (dsts srcs : List Seg) (ents flags : ℕ)
    → wq.state ≡ enabled
    → g.alloc ≡ some d
    → ents ≤ length dsts
    → ents ≤ length srcs
    → (t : BatchTask) × (idxd_desc_dma_submit_memcpy_sg p wq g dsts srcs ents flags
        ≡ returns (some t))
      × IsBatch wq g dsts srcs ents t
unfolding idxd_desc_dma_submit_memcpy_sg idxd_prep_desc_batch
submit_memcpy_sg-IsBatch p wq g d dsts srcs ents flags on given hd hs =
    let f = fill_subs-Filled wq.idxd (op_flag_setup p flags) g.compls_addr ents 0 dsts srcs hd hs in
    (
      batch_task p wq.idxd g d ents flags (f.subs, drop ents dsts, drop ents srcs),
      rw (on, given, f.ran),
      record {
        batch = _;
        info = _;
        desc_list = refl;
        opcode = refl;
        list_addr = refl;
        list_mapped = refl;
        desc_count = refl;
        count = f.count;
        memmoves = f.memmoves;
        copies = f.copies;
        next_dst = refl;
        next_src = refl;
        slots = λ k h e. let start : 0 + k ≡ k = omega arith in rw start at (f.slots k h e);
      },
    )
