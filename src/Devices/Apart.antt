-- ===== src/Devices/Apart.antt =====
-- Names and numbers of the four modules of
-- DSA_Userspace_Test/memmove_Non-Contiguous-Mem-by-vmalloc_CPU_VS_DSA_TEST.
use text.Mathlib.Text.{◌==◌ as str_eq}
use dsa_test.Base.{◌≡◌, refl, ◌&&◌}
use dsa_test.Base
use dsa_test.Devices.{
  Module, kmalloc, kmalloc_dst, vmalloc, vmalloc_dst, same, major, minor, proc_name,
}

-- No two of them have a name in common,
pub names_apart : (x y : Module) → str_eq (proc_name y) (proc_name x) ≡ same x y
names_apart kmalloc kmalloc = refl
names_apart kmalloc kmalloc_dst = refl
names_apart kmalloc vmalloc = refl
names_apart kmalloc vmalloc_dst = refl
names_apart kmalloc_dst kmalloc = refl
names_apart kmalloc_dst kmalloc_dst = refl
names_apart kmalloc_dst vmalloc = refl
names_apart kmalloc_dst vmalloc_dst = refl
names_apart vmalloc kmalloc = refl
names_apart vmalloc kmalloc_dst = refl
names_apart vmalloc vmalloc = refl
names_apart vmalloc vmalloc_dst = refl
names_apart vmalloc_dst kmalloc = refl
names_apart vmalloc_dst kmalloc_dst = refl
names_apart vmalloc_dst vmalloc = refl
names_apart vmalloc_dst vmalloc_dst = refl

-- or a number.
pub numbers_apart :
    (x y : Module) → (Base.◌==◌ (major y) (major x) && Base.◌==◌ (minor y) (minor x)) ≡ same x y
numbers_apart kmalloc kmalloc = refl
numbers_apart kmalloc kmalloc_dst = refl
numbers_apart kmalloc vmalloc = refl
numbers_apart kmalloc vmalloc_dst = refl
numbers_apart kmalloc_dst kmalloc = refl
numbers_apart kmalloc_dst kmalloc_dst = refl
numbers_apart kmalloc_dst vmalloc = refl
numbers_apart kmalloc_dst vmalloc_dst = refl
numbers_apart vmalloc kmalloc = refl
numbers_apart vmalloc kmalloc_dst = refl
numbers_apart vmalloc vmalloc = refl
numbers_apart vmalloc vmalloc_dst = refl
numbers_apart vmalloc_dst kmalloc = refl
numbers_apart vmalloc_dst kmalloc_dst = refl
numbers_apart vmalloc_dst vmalloc = refl
numbers_apart vmalloc_dst vmalloc_dst = refl
