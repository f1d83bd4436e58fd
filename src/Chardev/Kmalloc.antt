-- ===== src/Chardev/Kmalloc.antt =====
-- kmalloc_to_userspace.c of
-- DSA_Userspace_Test/memmove_Non-Contiguous-Mem-by-vmalloc_CPU_VS_DSA_TEST.
pub mod Unwind
pub mod Mapped
use dsa_test.Base.{
  ℕ, ◌*◌, ◌-◌, true, false, none, some, List, [], ◌∷◌, ltb, if◌then◌else◌, ℤ, pos, is_neg,
}
use dsa_test.Chardev.{page_size, npages, eio, enomem, Vma, Mapping, Held, nothing, Kernel}

-- `my_mmap`: the return value, and what is mapped; `pfn` is the area's page frame.
pub my_mmap : ℕ → (Mapping → ℤ) → Vma → ℤ × List Mapping
my_mmap pfn remap_pfn_range vma =
    let size = vma.vm_end - vma.vm_start in
    if ltb (npages * page_size) size
    then (eio, [])
    else let m : Mapping = record { addr = vma.vm_start; pfn = pfn; size = size } in
      (if is_neg (remap_pfn_range m) then (remap_pfn_range m, []) else (pos 0, m ∷ []))

-- The labels at the end of `my_init`, each of which goes on to the next.
pub out_no_chrdev : ℤ → Held → ℤ × Held
out_no_chrdev ret s = (ret, record s { proc_entry = false })

pub out_unreg : ℤ → Held → ℤ × Held
unfolding out_no_chrdev
out_unreg ret s = out_no_chrdev ret (record s { region = false })

pub out_kfree : ℤ → Held → ℤ × Held
unfolding out_unreg
out_kfree ret s = out_unreg ret (record s { area = none })

-- `my_init`: the return value and what the module then holds.
unfoldable pub my_init : Kernel → ℤ × Held
unfolding out_no_chrdev out_unreg out_kfree
my_init os =
    if os.proc_create
    then if is_neg os.register_chrdev_region
      then out_no_chrdev os.register_chrdev_region (record nothing { proc_entry = true })
      else elim os.alloc [
        | none ↦ out_unreg enomem (record nothing { proc_entry = true; region = true })
        | some area ↦
            if is_neg os.cdev_add
            then out_kfree os.cdev_add (record nothing {
              proc_entry = true;
              region = true;
              area = some area;
              reserved = true;
            })
            else (
              pos 0,
              record {
                proc_entry = true;
                region = true;
                area = some area;
                reserved = true;
                cdev = true;
              },
            )
      ]
    else (enomem, nothing)

-- `my_exit`
unfoldable pub my_exit : Held → Held
my_exit s =
    let no_cdev = record s { cdev = false } in
    let freed = record no_cdev { reserved = false; area = none } in
    record freed { region = false; proc_entry = false }
