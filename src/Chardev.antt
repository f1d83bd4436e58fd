-- ===== src/Chardev.antt =====
-- The character devices of
-- DSA_Userspace_Test/memmove_Non-Contiguous-Mem-by-vmalloc_CPU_VS_DSA_TEST, which map a kernel area
-- into a process: kmalloc_to_userspace.c (`Chardev.Kmalloc`) and vmalloc_to_userspace.c
-- (`Chardev.Vmalloc`), and their `_dst` versions. This module has what they share.
--
-- What the kernel returns is an argument. Addresses of a process and of the kernel's areas are well
-- below 2 ^ 64, so the additions to them do not wrap; the sum of sizes in `my_seq_show` is cut to its
-- `unsigned long`. The text in the pages is left out.
pub mod Kmalloc
pub mod Vmalloc
pub mod KmallocDst
pub mod VmallocDst
pub mod Sizes
mod Examples
use dsa_test.Base.{
  ◌≡◌, ◌⊎◌, pos, is_neg, ℕ, ◌+◌, ◌-◌, ◌%◌, ◌^◌, Bool, true, false, Option, none, some, List, [],
  ◌∷◌, ℤ, neg,
}

-- `PAGE_SIZE` and `NPAGES`
abbrev pub page_size : ℕ
page_size = 4096

abbrev pub npages : ℕ
npages = 1024

-- `-EIO`
abbrev pub eio : ℤ
eio = neg 5

-- `-ENOMEM`
abbrev pub enomem : ℤ
enomem = neg 12

-- The part of `struct vm_area_struct` that is read
pub record Vma : Type 0 where
  pub vm_start : ℕ
  pub vm_end : ℕ

-- A range that `remap_pfn_range` maps: from an address, on a page frame, so many bytes.
pub record Mapping : Type 0 where
  pub addr : ℕ
  pub pfn : ℕ
  pub size : ℕ

-- What a module holds: its file in /proc, its device numbers, its area, the reservation of the
-- area's pages, and the device.
pub record Held : Type 0 where
  pub proc_entry : Bool
  pub region : Bool
  pub area : Option ℕ
  pub reserved : Bool
  pub cdev : Bool

abbrev pub nothing : Held
nothing = record { proc_entry = false; region = false; area = none; reserved = false; cdev = false }

-- What the kernel answers to `my_init`.
pub record Kernel : Type 0 where
  pub proc_create : Bool
  pub register_chrdev_region : ℤ
  pub alloc : Option ℕ
  pub cdev_add : ℤ

-- `my_seq_show`, the same in both modules: the number that it prints, from `total` on.
pub my_seq_show : ℕ → List Vma → ℕ
my_seq_show total [] = total
my_seq_show total (v ∷ vmas) = my_seq_show ((total + (v.vm_end - v.vm_start)) % 2 ^ 64) vmas

-- Everything is held, or nothing but, perhaps, the reservation of pages that are freed.
abbrev pub AllOrNothing : (Held → Held) → ℤ × Held → Type 0
AllOrNothing exit (ret, s) =
    ((ret ≡ pos 0)
      × (s.proc_entry ≡ true)
      × (s.region ≡ true)
      × ((a : ℕ) × (s.area ≡ some a))
      × (s.reserved ≡ true)
      × (s.cdev ≡ true)
      × (exit s ≡ nothing))
    ⊎ ((is_neg ret ≡ true) × ((s ≡ nothing) ⊎ (s ≡ record nothing { reserved = true })))
