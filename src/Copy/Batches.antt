-- ===== src/Copy/Batches.antt =====
-- The batches of kernel_test_sgtable_batch.c ask for every entry once.
use dsa_test.Base.{
  Bool, ◌==◌, if◌then◌else◌, ◌≢◌, take_all, Bool-cases, inl, inr, ◌^◌, min, ◌&&◌, ℕ, zero, suc, ◌+◌,
  ◌-◌, ◌*◌, ◌≤◌, ◌<◌, ◌≡◌, refl, ap, ◌∙◌, true, none, some, List, [], ◌∷◌, ◌++◌, map, arith, length,
  take, drop, ltb, returns, length-drop, ap₂, append-nil, sym, append_assoc,
}
use dsa_test.Desc.{HwDesc, BatchInfo, opcode_batch, Desc, Wq, Seg, Grant, DescList, enabled}
use dsa_test.Desc.Batch.{
  Transfer, transfer, entrywise, shortest, IsBatch, submit_memcpy_sg-IsBatch, pairwise-append,
  pairwise-take,
}
use dsa_test.Copy.Cuts.{NoSingle, common, common-fits, div_up-enough, chunk_size-add}
use dsa_test.Desc.Flags.{submit_memcpy-given}
use dsa_test.Copy.{
  first, single, div_up, batches, batch_lists, chunk_size, submit_flags, BatchTask,
  idxd_desc_dma_submit_memcpy_sg,
}

-- Whether a descriptor makes the engine run the list of a batch: it is a BATCH at the list's mapped
-- address, of two descriptors at least, as DSA asks for.
abbrev pub runs_batch : HwDesc → BatchInfo → Bool
runs_batch h info =
    h.opcode == opcode_batch && (h.src_addr == info.hw_descs_addr && ltb 1 h.xfer_size)

-- The copies that a list entry makes the engine carry out: for a batch those of as many of the list's
-- descriptors as its descriptor counts.
pub asked : DescList → List Transfer
asked l = elim l.desc [
  | none ↦ []
  | some d ↦ elim l.batch_info [
    | none ↦ transfer d.hw ∷ []
    | some info ↦
        if runs_batch d.hw info then map transfer (take d.hw.xfer_size info.sub_hw_descs) else []
  ]
]

pub asked_all : List DescList → List Transfer
asked_all [] = []
asked_all (l ∷ ls) = asked l ++ asked_all ls

pub asked_all-append : (ls ms : List DescList) → asked_all (ls ++ ms) ≡ asked_all ls ++ asked_all ms
unfolding asked_all
asked_all-append [] ms = refl
asked_all-append (l ∷ ls) ms =
    ap (◌++◌ (asked l)) (asked_all-append ls ms)
    ∙ sym (append_assoc (asked l) (asked_all ls) (asked_all ms))

pub asked_all-nil : asked_all [] ≡ []
unfolding asked_all
asked_all-nil = refl

pub asked_all-one : (l : DescList) → asked_all (l ∷ []) ≡ asked l
unfolding asked_all
asked_all-one l = append-nil (asked l)

batch-runs :
    (h : HwDesc) (info : BatchInfo) (n : ℕ)
    → h.opcode ≡ opcode_batch
    → h.src_addr ≡ info.hw_descs_addr
    → h.xfer_size ≡ n
    → length info.sub_hw_descs ≡ n
    → n ≢ 1
    → (if runs_batch h info then map transfer (take h.xfer_size info.sub_hw_descs) else [])
      ≡ map transfer info.sub_hw_descs
batch-runs h info n op at count whole many = elim (Bool-cases (runs_batch h info)) [
  | inl runs ↦ rw runs (ap (map transfer) (take_all h.xfer_size info.sub_hw_descs (omega arith)))
  | inr idle ↦
      let few : n ≤ 1 = ground arith in
      let empty : length info.sub_hw_descs ≤ 0 = ground arith in
      rw idle (ap (map transfer) (take_all 0 info.sub_hw_descs empty))
]

pub asked-IsBatch :
    {wq : Wq} {g : Grant} {dsts srcs : List Seg} {n : ℕ} {t : BatchTask}
    → n ≢ 1
    → IsBatch wq g dsts srcs n t
    → asked t.desc_list ≡ entrywise (take n dsts) (take n srcs)
unfolding asked
asked-IsBatch {n = n} many b = rw b.desc_list (
    batch-runs b.batch.hw b.info n b.opcode (b.list_addr ∙ sym b.list_mapped) b.desc_count b.count
      many
    ∙ b.copies)

-- An entry with a descriptor, which has not been counted
abbrev pub IsNew : DescList → Type 0
IsNew l = (l.completion ≡ 0) × ((d : Desc) × (l.desc ≡ some d))

abbrev pub AllNew : List DescList → Type 0
AllNew [] = Unit {0}
AllNew (l ∷ ls) = IsNew l × AllNew ls

IsBatch-IsNew :
    {wq : Wq} {g : Grant} {dsts srcs : List Seg} {n : ℕ} {t : BatchTask}
    → IsBatch wq g dsts srcs n t
    → IsNew t.desc_list
IsBatch-IsNew b = (ap (λ l. l.completion) b.desc_list, (b.batch, ap (λ l. l.desc) b.desc_list))

batches-cons :
    (p : ℕ) (wq : Wq) (grants : ℕ → Grant) (total n i : ℕ) (dsts srcs : List Seg) (t : BatchTask)
    (ls : List DescList)
    → idxd_desc_dma_submit_memcpy_sg p wq
        (grants i)
        dsts
        srcs
        (chunk_size wq.idxd.max_batch_size (total - i * wq.idxd.max_batch_size))
        submit_flags
      ≡ returns (some t)
    → batches p wq grants total n (i + 1) t.next_sg_dst t.next_sg_src ≡ returns ls
    → batches p wq grants total (suc n) i dsts srcs ≡ returns (t.desc_list ∷ ls)
unfolding batches
batches-cons p wq grants total n i dsts srcs t ls a b = rw a (rw b)

-- `desc_count` of a batch
pub desc_count : DescList → ℕ
desc_count l = elim l.desc [ none ↦ 0 | some d ↦ d.hw.xfer_size ]

-- The numbers of entries of `n` batches, with `left` entries to ask for.
unfoldable pub cuts : ℕ → ℕ → ℕ → List ℕ
cuts max zero left = []
cuts max (suc n) left = chunk_size max left ∷ cuts max n (left - chunk_size max left)

IsBatch-desc_count :
    {wq : Wq} {g : Grant} {dsts srcs : List Seg} {n : ℕ} {t : BatchTask}
    → IsBatch wq g dsts srcs n t
    → desc_count t.desc_list ≡ n
unfolding desc_count
IsBatch-desc_count b = rw b.desc_list b.desc_count

module _ (p : ℕ) (wq : Wq) (grants : ℕ → Grant) (on : wq.state ≡ enabled)
    (given : (i : ℕ) → (d : Desc) × ((grants i).alloc ≡ some d)) where
  batches-asked :
      (total n i : ℕ) (dsts srcs : List Seg)
      → total - i * wq.idxd.max_batch_size ≤ n * wq.idxd.max_batch_size
      → total - i * wq.idxd.max_batch_size ≤ length dsts
      → total - i * wq.idxd.max_batch_size ≤ length srcs
      → (ls : List DescList) × (batches p wq grants total n i dsts srcs ≡ returns ls)
        × (length ls ≡ n)
        × (NoSingle total wq.idxd.max_batch_size
            → asked_all ls
              ≡ entrywise
                  (take (total - i * wq.idxd.max_batch_size) dsts)
                  (take (total - i * wq.idxd.max_batch_size) srcs))
        × AllNew ls
        × (map desc_count ls ≡ cuts wq.idxd.max_batch_size n (total - i * wq.idxd.max_batch_size))
  unfolding batches asked_all cuts
  batches-asked total zero i dsts srcs h hd hs =
      let none_left : total - i * wq.idxd.max_batch_size ≡ 0 = omega arith in
      ([], refl, refl, λ pairs. rw none_left, tt, refl)
  batches-asked total (suc n) i dsts srcs h hd hs =
      let max = wq.idxd.max_batch_size in
      let now = chunk_size max (total - i * max) in
      let later = total - (i + 1) * max in
      let split = chunk_size-add max total i in
      let (d, alloc) = given i in
      let (t, ran, b) =
        submit_memcpy_sg-IsBatch p wq (grants i) d dsts srcs now submit_flags on alloc (omega arith)
          (omega arith) in
      let (ls, rest, count, copies, new, sizes) =
        batches-asked total n (i + 1) (drop now dsts) (drop now srcs) (ground arith)
          (omega (arith, length-drop now dsts)) (omega (arith, length-drop now srcs)) in
      (
        t.desc_list ∷ ls,
        batches-cons p wq grants total n i dsts srcs t ls ran (rw (b.next_dst, b.next_src) rest),
        ap suc count,
        λ pairs.
            ap₂ ◌++◌ (asked-IsBatch (pairs i) b) (copies pairs)
            ∙ pairwise-append (λ d s. d.dma_len) now later dsts srcs
            ∙ ap (λ k. entrywise (take k dsts) (take k srcs)) split,
        (IsBatch-IsNew b, new),
        ap₂ ◌∷◌ (IsBatch-desc_count b) (sizes ∙ ap (cuts max n) (omega (arith, split))),
      )

pub batch_lists-ran :
    (p : ℕ) (wq : Wq) (grants : ℕ → Grant)
    → wq.state ≡ enabled
    → ((i : ℕ) → (d : Desc) × ((grants i).alloc ≡ some d))
    → 0 < wq.idxd.max_batch_size
    → (srcs dsts : List Seg) → 1 < length srcs
    → 1 < length dsts
    → (ls : List DescList) × (batch_lists p wq grants (length srcs) (length dsts) srcs dsts
        ≡ returns ls)
      × (length ls ≡ div_up (common (length srcs) (length dsts)) wq.idxd.max_batch_size)
      × (NoSingle (common (length srcs) (length dsts)) wq.idxd.max_batch_size
          → asked_all ls ≡ entrywise dsts srcs)
      × AllNew ls
      × (map desc_count ls
          ≡ cuts wq.idxd.max_batch_size
              (div_up (common (length srcs) (length dsts)) wq.idxd.max_batch_size)
              (common (length srcs) (length dsts)))
unfolding batch_lists
batch_lists-ran p wq grants on given sized srcs dsts h1 h2 =
    let total = common (length srcs) (length dsts) in
    let max = wq.idxd.max_batch_size in
    let all : total - 0 * max ≡ total = omega arith in
    let (fits1, fits2) = common-fits (length srcs) (length dsts) in
    let (ls, ran, count, copies, new, sizes) =
      batches-asked p wq grants on given total (div_up total max) 0 dsts srcs
        (rw all (div_up-enough total max sized)) (rw all fits2) (rw all fits1) in
    let more : (ltb 1 (length srcs) && ltb 1 (length dsts)) ≡ true = ground arith in
    (
      ls,
      rw more ran,
      count,
      λ pairs.
          rw all at (copies pairs) ∙ pairwise-take (λ d s. d.dma_len) total dsts srcs (omega arith),
      new,
      rw all at sizes,
    )

-- On an enabled queue, when the driver gives a descriptor for every batch, two tables of more than
-- one entry, which leave no batch of one, are copied by `div_up` batches, and the copies that these ask for together are those of
-- the entries that both tables have, each once and in order.
pub batch_lists-asked :
    (p : ℕ) (wq : Wq) (grants : ℕ → Grant)
    → wq.state ≡ enabled
    → ((i : ℕ) → (d : Desc) × ((grants i).alloc ≡ some d))
    → 0 < wq.idxd.max_batch_size
    → (srcs dsts : List Seg) → 1 < length srcs
    → 1 < length dsts
    → NoSingle (common (length srcs) (length dsts)) wq.idxd.max_batch_size
    → (ls : List DescList) × (batch_lists p wq grants (length srcs) (length dsts) srcs dsts
        ≡ returns ls)
      × (length ls ≡ div_up (common (length srcs) (length dsts)) wq.idxd.max_batch_size)
      × (asked_all ls ≡ entrywise dsts srcs)
batch_lists-asked p wq grants on given sized srcs dsts h1 h2 pairs =
    let (ls, ran, count, copies, new, sizes) =
      batch_lists-ran p wq grants on given sized srcs dsts h1 h2 in
    (ls, ran, count, copies pairs)

-- A single descriptor, for two chains that are not at their end.
pub single-asked :
    (p : ℕ) (wq : Wq) (g : Grant) (d s : Seg) (dsts srcs : List Seg)
    → wq.state ≡ enabled
    → wq.idxd.max_xfer_bytes < 2 ^ 32
    → ((made : Desc) × (g.alloc ≡ some made))
    → d.dma_len ≤ wq.idxd.max_xfer_bytes
    → (l : DescList) × (single p wq g (d ∷ dsts) (s ∷ srcs) ≡ returns l)
      × (asked l ≡ shortest (d ∷ []) (s ∷ []))
unfolding single first asked
single-asked p wq g d s dsts srcs on small (made, gave) fits =
    let (filled, has, copy) =
      submit_memcpy-given p wq g.alloc d.dma_address s.dma_address (min s.dma_len d.dma_len)
        submit_flags on small gave (omega arith) in
    (
      record { desc = some filled; completion = 0; batch_info = none },
      rw has refl,
      ap (λ t. t ∷ []) copy,
    )
