-- ===== src/Chardev/Examples.antt =====
-- A mapping of two pages and a half, and modules that meet an error at their end.
use dsa_test.Base.{ℕ, ◌+◌, ◌*◌, ◌-◌, ◌/◌, ◌≡◌, ◌≤◌, ◌<◌, refl, true, some, pos, neg, arith}
use dsa_test.Chardev.{Vma, Kernel, page_size}
use dsa_test.Chardev.Vmalloc as Vmalloc
use dsa_test.Chardev.Vmalloc.Mapped.{pages, my_mmap-pages}

abbrev a_vma : Vma
a_vma = record { vm_start = 0x700000; vm_end = 0x702800 }

abbrev no_device : Kernel
no_device = record {
  proc_create = true;
  register_chrdev_region = pos 0;
  alloc = some 0x9000;
  cdev_add = neg 16;
}

my_mmap-pages_example :
    (k : ℕ) × (a_vma.vm_end - a_vma.vm_start ≤ k * page_size)
    × (k * page_size < a_vma.vm_end - a_vma.vm_start + page_size)
    × (Vmalloc.my_mmap (λ a. a / 4096) (λ m. pos 0) 0x9000 a_vma
        ≡ some (pos 0, pages (λ a. a / 4096) k a_vma.vm_start 0x9000))
my_mmap-pages_example =
    my_mmap-pages (λ a. a / 4096) (λ m. pos 0) 0x9000 a_vma (λ m. refl) (omega arith)
