-- ===== src/Chardev/Vmalloc/Mapped.antt =====
-- What the `my_mmap`s of kmalloc_to_userspace.c and vmalloc_to_userspace.c
-- (DSA_Userspace_Test/memmove_Non-Contiguous-Mem-by-vmalloc_CPU_VS_DSA_TEST) map.
use dsa_test.Base.{
  ℕ, zero, suc, ◌+◌, ◌*◌, ◌-◌, ◌≤◌, ◌<◌, ◌≡◌, refl, ap, ◌∙◌, true, false, some, List, [], ◌∷◌, ◌++◌,
  append-nil, append_assoc, arith, ltb, ℤ, pos, is_neg, Bool-cases, inl, inr,
}
use dsa_test.Chardev.{page_size, npages, Vma, Mapping, eio}
use dsa_test.Chardev.Vmalloc.{map_pages, my_mmap}

-- `k` pages of the process, on those of the area.
abbrev pub pages : (ℕ → ℕ) → ℕ → ℕ → ℕ → List Mapping
pages to_pfn zero start area = []
pages to_pfn (suc k) start area =
    record { addr = start; pfn = to_pfn area; size = page_size }
    ∷ pages to_pfn k (start + page_size) (area + page_size)

map_pages-more :
    (to_pfn : ℕ → ℕ) (remap : Mapping → ℤ) (n start area left : ℕ) (mapped : List Mapping)
    → ltb 0 left ≡ true
    → is_neg (remap (record { addr = start; pfn = to_pfn area; size = page_size })) ≡ false
    → map_pages to_pfn remap (suc n) start area left mapped
      ≡ map_pages to_pfn remap n
          (start + page_size)
          (area + page_size)
          (left - page_size)
          (mapped ++ (record { addr = start; pfn = to_pfn area; size = page_size } ∷ []))
unfolding map_pages
map_pages-more to_pfn remap n start area left mapped more ok = rw (more, map_pages) (rw ok refl)

map_pages-all :
    (to_pfn : ℕ → ℕ) (remap : Mapping → ℤ) (n start area left : ℕ) (mapped : List Mapping)
    → ((m : Mapping) → is_neg (remap m) ≡ false)
    → left ≤ n * page_size
    → (k : ℕ) × (left ≤ k * page_size)
      × (k * page_size < left + page_size)
      × (map_pages to_pfn remap n start area left mapped
          ≡ some (pos 0, mapped ++ pages to_pfn k start area))
unfolding map_pages
map_pages-all to_pfn remap zero start area left mapped ok h =
    let over : ltb 0 left ≡ false = ground arith in
    (0, omega arith, omega arith, rw (over, append-nil mapped) refl)
map_pages-all to_pfn remap (suc n) start area left mapped ok h = elim (Bool-cases (ltb 0 left)) [
  | inr over ↦
      let none_left : left ≡ 0 = ground arith in
      (0, omega arith, omega arith, rw (over, map_pages, append-nil mapped) refl)
  | inl more ↦
      let m : Mapping = record { addr = start; pfn = to_pfn area; size = page_size } in
      let (k, enough, tight, ran) =
        map_pages-all to_pfn remap n (start + page_size) (area + page_size) (left - page_size)
          (mapped ++ (m ∷ [])) ok (omega arith) in
      (
        suc k,
        omega arith,
        ground arith,
        map_pages-more to_pfn remap n start area left mapped more (ok m)
            ∙ ran
            ∙ ap (λ l. some (pos 0, l))
                (append_assoc mapped (m ∷ [])
                  (pages to_pfn k (start + page_size) (area + page_size))),
      )
]

map_pages-ends :
    (to_pfn : ℕ → ℕ) (remap : Mapping → ℤ) (n start area left : ℕ) (mapped : List Mapping)
    → left ≤ n * page_size
    → (r : ℤ × List Mapping) × (map_pages to_pfn remap n start area left mapped ≡ some r)
unfolding map_pages
map_pages-ends to_pfn remap zero start area left mapped h =
    let over : ltb 0 left ≡ false = ground arith in ((pos 0, mapped), rw over refl)
map_pages-ends to_pfn remap (suc n) start area left mapped h = elim (Bool-cases (ltb 0 left)) [
  | inr over ↦ ((pos 0, mapped), rw (over, map_pages) refl)
  | inl more ↦
      let m : Mapping = record { addr = start; pfn = to_pfn area; size = page_size } in
      elim (Bool-cases (is_neg (remap m))) [
        | inl bad ↦ ((remap m, mapped), rw (more, map_pages) (rw bad refl))
        | inr ok ↦
            let (r, ran) =
              map_pages-ends to_pfn remap n (start + page_size) (area + page_size)
                (left - page_size) (mapped ++ (m ∷ [])) (omega arith) in
            (r, map_pages-more to_pfn remap n start area left mapped more ok ∙ ran)
      ]
]

-- `my_mmap` of vmalloc_to_userspace.c always returns.
pub my_mmap-returns :
    (to_pfn : ℕ → ℕ) (remap : Mapping → ℤ) (area : ℕ) (vma : Vma)
    → (r : ℤ × List Mapping) × (my_mmap to_pfn remap area vma ≡ some r)
unfolding my_mmap
my_mmap-returns to_pfn remap area vma =
    elim (Bool-cases (ltb (npages * page_size) (vma.vm_end - vma.vm_start))) [
      | inl long ↦ ((eio, []), rw long refl)
      | inr fits ↦
          let (r, ran) =
            map_pages-ends to_pfn remap npages vma.vm_start area (vma.vm_end - vma.vm_start) []
              (ground arith) in
          (r, rw fits ran)
    ]

-- When `remap_pfn_range` does not fail, a range of at most `NPAGES` pages is mapped in whole: page by
-- page, each on the frame of the area's page at the same offset, with no more pages than it takes.
pub my_mmap-pages :
    (to_pfn : ℕ → ℕ) (remap : Mapping → ℤ) (area : ℕ) (vma : Vma)
    → ((m : Mapping) → is_neg (remap m) ≡ false)
    → vma.vm_end - vma.vm_start ≤ npages * page_size
    → (k : ℕ) × (vma.vm_end - vma.vm_start ≤ k * page_size)
      × (k * page_size < vma.vm_end - vma.vm_start + page_size)
      × (my_mmap to_pfn remap area vma ≡ some (pos 0, pages to_pfn k vma.vm_start area))
unfolding my_mmap
my_mmap-pages to_pfn remap area vma ok h =
    let fits : ltb (npages * page_size) (vma.vm_end - vma.vm_start) ≡ false = ground arith in
    let (k, enough, tight, ran) =
      map_pages-all to_pfn remap npages vma.vm_start area (vma.vm_end - vma.vm_start) [] ok h in
    (k, enough, tight, rw fits ran)
