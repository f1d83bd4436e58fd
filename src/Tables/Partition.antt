-- ===== src/Tables/Partition.antt =====
-- How `vmalloc_to_sgtable` deals the pages out to the queues.
use dsa_test.Base.{
  dec_lt, drop-cons, slices, drop-of_length_le, length-map, concat, drop-add, drop-length-take,
  concat-slices, sym,
}
use dsa_test.Base.{
  ℕ, zero, suc, ◌+◌, ◌*◌, ◌%◌, ◌≤◌, ◌<◌, ◌≡◌, ◌≢◌, refl, ap, ◌∙◌, Bool, false, Option, some, List,
  [], ◌∷◌, map, arith, length, get_or, take, drop, length-append,
}
use dsa_test.Tables.{
  TablePair, page_size, set_pages, deal, table_nents, alloc_tables, vmalloc_to_sgtable,
}

-- The pair of tables that holds one slice of the page order.
unfoldable pub pair_of : (ℕ → ℕ) → (ℕ → ℕ) → ℕ → List ℕ → TablePair
pair_of src_page dst_page nents s = (
  record { orig_nents = nents; pages = map src_page s },
  record { orig_nents = nents; pages = map dst_page s },
)

module _ (to_page : ℕ → Option ℕ) (arr : List ℕ) (npages : ℕ) (whole : length arr ≡ npages) where
  set_pages-take :
      (area : ℕ) (page : ℕ → ℕ)
      → ((k : ℕ)
          → k < npages
          → to_page (area + get_or arr k 0 * page_size) ≡ some (page (get_or arr k 0)))
      → (n k : ℕ) → set_pages to_page area arr npages n k ≡ some (map page (take n (drop k arr)))
  unfolding set_pages
  set_pages-take area page there zero k = refl
  set_pages-take area page there (suc n) k = elim (dec_lt k npages) [
    | yes h ↦
        rw (drop-cons k 0 arr (omega arith))
          (ground (arith, there k h, set_pages-take area page there n (k + 1)))
    | no h ↦ rw (drop-of_length_le k arr (omega arith)) (ground arith)
  ]

  module _ (area area2 : ℕ) (src_page dst_page : ℕ → ℕ)
      (src_there : (k : ℕ)
        → k < npages
        → to_page (area + get_or arr k 0 * page_size) ≡ some (src_page (get_or arr k 0)))
      (dst_there : (k : ℕ)
        → k < npages
        → to_page (area2 + get_or arr k 0 * page_size) ≡ some (dst_page (get_or arr k 0)))
      (nents : ℕ) where
    deal-slices :
        (w idx : ℕ)
        → deal to_page area area2 arr npages nents w idx
          ≡ some (map (pair_of src_page dst_page nents) (slices w nents (drop idx arr)))
    unfolding deal pair_of
    deal-slices zero idx = refl
    deal-slices (suc w) idx = rw (
      set_pages-take area src_page src_there nents idx,
      set_pages-take area2 dst_page dst_there nents idx,
      deal,
      length-map dst_page (take nents (drop idx arr)),
      deal-slices w (idx + length (take nents (drop idx arr))),
      drop-add idx (length (take nents (drop idx arr))) arr,
      drop-length-take nents (drop idx arr),
    )

  alloc_tables-false :
      (alloc_fails : ℕ → Bool)
      → ((k : ℕ) → alloc_fails k ≡ false)
      → (w k : ℕ) → alloc_tables alloc_fails w k ≡ false
  unfolding alloc_tables
  alloc_tables-false alloc_fails fine zero k = refl
  alloc_tables-false alloc_fails fine (suc w) k =
      rw (fine k, fine (k + 1)) (alloc_tables-false alloc_fails fine w (k + 2))

  table_nents-enough : (wqs : ℕ) → 0 < wqs → npages ≤ wqs * table_nents npages wqs
  unfolding table_nents
  table_nents-enough wqs h = grind arith

  -- When no call fails, the queues' tables are the successive slices of the page order: together
  -- they hold every page of it once, in order, and the two tables of a queue hold the same pages of
  -- the two areas, entry by entry.
  pub vmalloc_to_sgtable-slices :
      (alloc_fails : ℕ → Bool) (area area2 : ℕ) (src_page dst_page : ℕ → ℕ) (wqs : ℕ)
      → ((k : ℕ) → alloc_fails k ≡ false)
      → ((k : ℕ)
          → k < npages
          → to_page (area + get_or arr k 0 * page_size) ≡ some (src_page (get_or arr k 0)))
      → ((k : ℕ)
          → k < npages
          → to_page (area2 + get_or arr k 0 * page_size) ≡ some (dst_page (get_or arr k 0)))
      → 0 < wqs
      → let parts = slices wqs (table_nents npages wqs) arr in
        (vmalloc_to_sgtable alloc_fails to_page area area2 arr npages wqs
          ≡ some (map (pair_of src_page dst_page (table_nents npages wqs)) parts))
        × (concat parts ≡ arr)
  unfolding vmalloc_to_sgtable
  vmalloc_to_sgtable-slices alloc_fails area area2 src_page dst_page wqs fine src dst some_wq = (
    rw (
      alloc_tables-false alloc_fails fine wqs 0,
      deal-slices area area2 src_page dst_page src dst (table_nents npages wqs) wqs 0,
    ),
    concat-slices wqs (table_nents npages wqs) arr
        (omega (arith, table_nents-enough wqs some_wq, whole)),
  )

-- Every entry of the source table has its page, so that the chain is as long as the table.
pub IsFull : TablePair → Type 0
IsFull t = length t.0.pages ≡ t.0.orig_nents

abbrev pub AllFull : List TablePair → Type 0
AllFull [] = Unit {0}
AllFull (t ∷ ts) = IsFull t × AllFull ts

total-full :
    (src_page dst_page : ℕ → ℕ) (n w : ℕ) (xs : List ℕ)
    → AllFull (map (pair_of src_page dst_page n) (slices w n xs))
    → length (concat (slices w n xs)) ≡ w * n
unfolding IsFull pair_of
total-full src_page dst_page n zero xs h = omega arith
total-full src_page dst_page n (suc w) xs h = omega (
  arith,
  length-map src_page (take n xs),
  length-append (take n xs) (concat (slices w n (drop n xs))),
  total-full src_page dst_page n w (drop n xs) h.1,
)

table_nents-uneven : (npages wqs : ℕ) → npages % wqs ≢ 0 → wqs * table_nents npages wqs ≢ npages
unfolding table_nents
table_nents-uneven npages wqs h e = grind arith

-- When the queues do not divide the pages evenly, some queue's chain is shorter than its table's
-- `orig_nents`, the count of entries that `dma_map_sgtable` walks.
pub vmalloc_to_sgtable-short :
    (to_page : ℕ → Option ℕ) (arr : List ℕ) (npages : ℕ)
    → length arr ≡ npages
    → (alloc_fails : ℕ → Bool) (area area2 : ℕ) (src_page dst_page : ℕ → ℕ) (wqs : ℕ)
    → ((k : ℕ) → alloc_fails k ≡ false)
    → ((k : ℕ)
        → k < npages
        → to_page (area + get_or arr k 0 * page_size) ≡ some (src_page (get_or arr k 0)))
    → ((k : ℕ)
        → k < npages
        → to_page (area2 + get_or arr k 0 * page_size) ≡ some (dst_page (get_or arr k 0)))
    → 0 < wqs
    → npages % wqs ≢ 0
    → (ts : List TablePair) × (vmalloc_to_sgtable alloc_fails to_page area area2 arr npages wqs
        ≡ some ts)
      × ¬ AllFull ts
vmalloc_to_sgtable-short to_page arr npages whole alloc_fails area area2 sp dp wqs fine src dst
      some_wq uneven =
    let (made, parts) =
      vmalloc_to_sgtable-slices to_page arr npages whole alloc_fails area area2 sp dp wqs fine src
        dst some_wq in
    (
      _,
      made,
      λ full.
          table_nents-uneven npages wqs uneven (
            sym (total-full sp dp (table_nents npages wqs) wqs arr full) ∙ ap length parts ∙ whole),
    )
