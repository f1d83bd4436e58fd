-- ===== src/Chardev/Kmalloc/Mapped.antt =====
-- What `my_mmap` of kmalloc_to_userspace.c
-- (DSA_Userspace_Test/memmove_Non-Contiguous-Mem-by-vmalloc_CPU_VS_DSA_TEST) maps.
use dsa_test.Base.{ℕ, ◌*◌, ◌-◌, ◌≤◌, ◌≡◌, refl, false, [], ◌∷◌, ℤ, is_neg, pos, ltb, arith}
use dsa_test.Chardev.{Vma, Mapping, npages, page_size}
use dsa_test.Chardev.Kmalloc.{my_mmap}

-- When `remap_pfn_range` does not fail, a range of at most `NPAGES` pages is mapped in one piece.
pub my_mmap-whole :
    (pfn : ℕ) (remap : Mapping → ℤ) (vma : Vma)
    → ((m : Mapping) → is_neg (remap m) ≡ false)
    → vma.vm_end - vma.vm_start ≤ npages * page_size
    → my_mmap pfn remap vma
      ≡ (pos 0, (record { addr = vma.vm_start; pfn = pfn; size = vma.vm_end - vma.vm_start }) ∷ [])
unfolding my_mmap
my_mmap-whole pfn remap vma ok h =
    let fits : ltb (npages * page_size) (vma.vm_end - vma.vm_start) ≡ false = ground arith in
    rw (fits, ok _) refl
