-- ===== src/Chardev/Sizes.antt =====
-- What `my_seq_show` of kmalloc_to_userspace.c and vmalloc_to_userspace.c
-- (DSA_Userspace_Test/memmove_Non-Contiguous-Mem-by-vmalloc_CPU_VS_DSA_TEST) prints.
use dsa_test.Base.{ℕ, ◌+◌, ◌-◌, ◌%◌, ◌^◌, ◌<◌, ◌≡◌, ap, ◌∙◌, List, [], ◌∷◌, arith}
use dsa_test.Chardev.{Vma, my_seq_show}

abbrev pub total_size : List Vma → ℕ
total_size [] = 0
total_size (v ∷ vmas) = (v.vm_end - v.vm_start) + total_size vmas

my_seq_show-from :
    (total : ℕ) (vmas : List Vma)
    → total < 2 ^ 64
    → my_seq_show total vmas ≡ (total + total_size vmas) % 2 ^ 64
unfolding my_seq_show
my_seq_show-from total [] h = ground arith
my_seq_show-from total (v ∷ vmas) h =
    my_seq_show-from ((total + (v.vm_end - v.vm_start)) % 2 ^ 64) vmas (ground arith) ∙ ground arith

-- `my_seq_show` prints the sum of the sizes of all mappings of the process, as an `unsigned long`.
pub my_seq_show-total : (vmas : List Vma) → my_seq_show 0 vmas ≡ total_size vmas % 2 ^ 64
my_seq_show-total vmas = my_seq_show-from 0 vmas (omega arith) ∙ ap (λ n. n % 2 ^ 64) (omega arith)
