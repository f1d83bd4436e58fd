-- ===== src/Chardev/VmallocDst.antt =====
-- vmalloc_to_userspace_dst.c of
-- DSA_Userspace_Test/memmove_Non-Contiguous-Mem-by-vmalloc_CPU_VS_DSA_TEST: the code of
-- vmalloc_to_userspace.c, with the minor number 1, and its own names and text (see `Devices`).
use dsa_test.Base.{ℕ, List, ℤ, Option}
use dsa_test.Chardev
use dsa_test.Chardev.{Kernel, Held, Vma, Mapping}
use dsa_test.Chardev.Vmalloc as Vmalloc

abbrev pub my_mmap : (ℕ → ℕ) → (Mapping → ℤ) → ℕ → Vma → Option (ℤ × List Mapping)
my_mmap = Vmalloc.my_mmap

abbrev pub my_init : Kernel → ℤ × Held
my_init = Vmalloc.my_init

abbrev pub my_exit : Held → Held
my_exit = Vmalloc.my_exit

abbrev pub my_seq_show : ℕ → List Vma → ℕ
my_seq_show = Chardev.my_seq_show
