-- ===== src/Chardev/Vmalloc.antt =====
-- vmalloc_to_userspace.c of
-- DSA_Userspace_Test/memmove_Non-Contiguous-Mem-by-vmalloc_CPU_VS_DSA_TEST.
pub mod Unwind
pub mod Mapped
use dsa_test.Base.{
  ◌++◌, ℕ, zero, suc, ◌+◌, ◌*◌, ◌-◌, true, false, Option, none, some, List, [], ◌∷◌, ltb,
  if◌then◌else◌, ℤ, pos, is_neg, ◌++◌,
}
use dsa_test.Chardev.{page_size, npages, eio, enomem, Vma, Mapping, Held, nothing, Kernel}

-- The loop of `my_mmap`, which maps pages one by one: `start`, `vmalloc_area_ptr` and `length` as in
-- the source, and how many more rounds are allowed; `none` when these run out. `long length` may go
-- below 0, where the loop ends as it does at 0.
pub map_pages : (ℕ → ℕ) → (Mapping → ℤ) → ℕ → ℕ → ℕ → ℕ → List Mapping → Option (ℤ × List Mapping)
map_pages vmalloc_to_pfn remap_pfn_range zero start area left mapped =
    if ltb 0 left then none else some (pos 0, mapped)
map_pages vmalloc_to_pfn remap_pfn_range (suc n) start area left mapped = elim (ltb 0 left) [
  | false ↦ some (pos 0, mapped)
  | true ↦
      let m : Mapping = record { addr = start; pfn = vmalloc_to_pfn area; size = page_size } in
      elim (is_neg (remap_pfn_range m)) [
        | true ↦ some (remap_pfn_range m, mapped)
        | false ↦
            map_pages vmalloc_to_pfn remap_pfn_range n (start + page_size) (area + page_size)
              (left - page_size) (mapped ++ (m ∷ []))
      ]
]

-- `my_mmap`, with `NPAGES` rounds, which are enough (`Chardev.Vmalloc.Mapped`): the return value, and what is
-- mapped.
pub my_mmap : (ℕ → ℕ) → (Mapping → ℤ) → ℕ → Vma → Option (ℤ × List Mapping)
unfolding map_pages
my_mmap vmalloc_to_pfn remap_pfn_range vmalloc_area vma =
    let size = vma.vm_end - vma.vm_start in
    if ltb (npages * page_size) size
    then some (eio, [])
    else map_pages vmalloc_to_pfn remap_pfn_range npages vma.vm_start vmalloc_area size []

-- The labels at the end of `my_init`, each of which goes on to the next.
pub out_no_chrdev : ℤ → Held → ℤ × Held
out_no_chrdev ret s = (ret, record s { proc_entry = false })

pub out_unreg : ℤ → Held → ℤ × Held
unfolding out_no_chrdev
out_unreg ret s = out_no_chrdev ret (record s { region = false })

pub out_vfree : ℤ → Held → ℤ × Held
unfolding out_unreg
out_vfree ret s = out_unreg ret (record s { area = none })

-- `my_init`: the return value and what the module then holds.
unfoldable pub my_init : Kernel → ℤ × Held
unfolding out_no_chrdev out_unreg out_vfree
my_init os =
    if os.proc_create
    then if is_neg os.register_chrdev_region
      then out_no_chrdev os.register_chrdev_region (record nothing { proc_entry = true })
      else elim os.alloc [
        | none ↦ out_unreg enomem (record nothing { proc_entry = true; region = true })
        | some area ↦
            if is_neg os.cdev_add
            then out_vfree os.cdev_add (record nothing {
              proc_entry = true;
              region = true;
              area = some area;
              reserved = true;
            })
            else (
              pos 0,
              record {
                proc_entry = true;
                region = true;
                area = some area;
                reserved = true;
                cdev = true;
              },
            )
      ]
    else (enomem, nothing)

-- `my_exit`
unfoldable pub my_exit : Held → Held
my_exit s =
    let no_cdev = record s { cdev = false } in
    let freed = record no_cdev { reserved = false; area = none } in
    record freed { region = false; proc_entry = false }
