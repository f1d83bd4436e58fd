-- ===== src/Chardev/Vmalloc/Unwind.antt =====
-- What `my_init` and `my_exit` of vmalloc_to_userspace.c
-- (DSA_Userspace_Test/memmove_Non-Contiguous-Mem-by-vmalloc_CPU_VS_DSA_TEST) leave behind.
use dsa_test.Base.{refl, is_neg, Bool-cases, Option-cases, inl, inr}
use dsa_test.Chardev.{Kernel, AllOrNothing}
use dsa_test.Chardev.Vmalloc.{my_init, my_exit, out_vfree, out_unreg, out_no_chrdev}

-- `my_init` of vmalloc_to_userspace.c either returns 0 and holds all that the device needs, which
-- `my_exit` then gives back in whole; or it returns an error and holds nothing, except that, when
-- `cdev_add` fails, the pages that it frees stay marked as reserved.
pub vmalloc-AllOrNothing : (os : Kernel) → AllOrNothing my_exit (my_init os)
unfolding my_init my_exit out_vfree out_unreg out_no_chrdev
vmalloc-AllOrNothing os = elim (Bool-cases os.proc_create) [
  | inr no_entry ↦ rw no_entry (inr (refl, inl refl))
  | inl entry ↦ elim (Bool-cases (is_neg os.register_chrdev_region)) [
    | inl no_region ↦ rw (entry, no_region) (inr (no_region, inl refl))
    | inr region ↦ elim (Option-cases os.alloc) [
      | inl null ↦ rw (entry, region, null) (inr (refl, inl refl))
      | inr (a, area) ↦ elim (Bool-cases (is_neg os.cdev_add)) [
        | inl no_cdev ↦ rw (entry, region, area, no_cdev) (inr (no_cdev, inr refl))
        | inr cdev ↦
            rw (entry, region, area, cdev) (inl (refl, refl, refl, (a, refl), refl, refl, refl))
      ]
    ]
  ]
]
