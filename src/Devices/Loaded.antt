-- ===== src/Devices/Loaded.antt =====
-- What the kernel holds while the modules of
-- DSA_Userspace_Test/memmove_Non-Contiguous-Mem-by-vmalloc_CPU_VS_DSA_TEST come and go.
use dsa_test.Base.{
  ◌≡◌, ◌∙◌, refl, ◌⊎◌, inl, inr, Bool, true, false, not, ◌||◌, some, ℕ, List, [], ◌∷◌, ℤ, is_neg,
  Bool-cases, arith,
}
use dsa_test.Chardev.{Kernel, Held, nothing, AllOrNothing}
use dsa_test.Chardev.Kmalloc as Kmalloc
use dsa_test.Chardev.Vmalloc as Vmalloc
use dsa_test.Chardev.Kmalloc.Unwind.{kmalloc-AllOrNothing}
use dsa_test.Chardev.Vmalloc.Unwind.{vmalloc-AllOrNothing}
use dsa_test.Devices.Apart.{names_apart, numbers_apart}
use dsa_test.Devices.{
  Module, kmalloc, kmalloc_dst, vmalloc, vmalloc_dst, same, major, minor, proc_name, my_init,
  my_exit, System, update, insmod, rmmod, eexist, Event, load, unload, run, booted,
}

-- A module that is loaded holds all that it needs,
pub record IsFull (h : Held) : Type 0 where
  pub proc_entry : h.proc_entry ≡ true
  pub region : h.region ≡ true
  pub area : (a : ℕ) × (h.area ≡ some a)
  pub reserved : h.reserved ≡ true
  pub cdev : h.cdev ≡ true

-- and one that is not holds nothing, but perhaps the mark on pages that it has freed.
abbrev pub IsGone : Held → Type 0
IsGone h = (h ≡ nothing) ⊎ (h ≡ record nothing { reserved = true })

pub record Inv (s : System) : Type 0 where
  pub procs : (x : Module) → s.procs (proc_name x) ≡ s.loaded x
  pub regions : (x : Module) → s.regions (major x) (minor x) ≡ s.loaded x
  pub full : (x : Module) → s.loaded x ≡ true → IsFull (s.held x)
  pub gone : (x : Module) → s.loaded x ≡ false → IsGone (s.held x)

module _ (x : Module) (proc region on : Bool) (h : Held) (s : System) where
  update-Inv :
      Inv s
      → proc ≡ on
      → region ≡ on
      → (on ≡ true → IsFull h)
      → (on ≡ false → IsGone h)
      → Inv (update x proc region on h s)
  unfolding update
  update-Inv i p r full gone = record {
    procs = λ y. elim (Bool-cases (same x y)) [
      | inl e ↦ rw (names_apart x y, e) p
      | inr e ↦ rw (names_apart x y, e) (i.procs y)
    ];
    regions = λ y. elim (Bool-cases (same x y)) [
      | inl e ↦ rw (numbers_apart x y, e) r
      | inr e ↦ rw (numbers_apart x y, e) (i.regions y)
    ];
    full = λ y. elim (Bool-cases (same x y)) [ inl e ↦ rw e full | inr e ↦ rw e (i.full y) ];
    gone = λ y. elim (Bool-cases (same x y)) [ inl e ↦ rw e gone | inr e ↦ rw e (i.gone y) ];
  }

my_init-AllOrNothing : (x : Module) (os : Kernel) → AllOrNothing (my_exit x) (my_init x os)
unfolding my_init my_exit
my_init-AllOrNothing kmalloc os = kmalloc-AllOrNothing os
my_init-AllOrNothing kmalloc_dst os = kmalloc-AllOrNothing os
my_init-AllOrNothing vmalloc os = vmalloc-AllOrNothing os
my_init-AllOrNothing vmalloc_dst os = vmalloc-AllOrNothing os

my_exit-nothing : (x : Module) (h : Held) → my_exit x h ≡ nothing
unfolding my_exit Kmalloc.my_exit Vmalloc.my_exit
my_exit-nothing kmalloc h = refl
my_exit-nothing kmalloc_dst h = refl
my_exit-nothing vmalloc h = refl
my_exit-nothing vmalloc_dst h = refl

rmmod-Inv : (x : Module) (s : System) → Inv s → Inv (rmmod x s)
unfolding rmmod
rmmod-Inv x s i = elim (Bool-cases (s.loaded x)) [
  | inr off ↦ rw off i
  | inl on ↦
      let none_left = my_exit-nothing x (s.held x) in
      rw on (
        rw none_left
          (update-Inv x false false false nothing s i refl refl (λ e. absurd cc) (λ e. inl refl)))
]

abbrev pub settled : Module → ℤ × Held → System → System
settled x (ret, h) s =
    update x (s.procs (proc_name x) || h.proc_entry) (s.regions (major x) (minor x) || h.region)
      (not (is_neg ret)) h s

pub insmod-fresh :
    (x : Module) (os : Kernel) (s : System)
    → s.loaded x ≡ false
    → insmod x os s ≡ ((my_init x os).0, settled x (my_init x os) s)
unfolding insmod
insmod-fresh x os s off = rw off refl

insmod-again :
    (x : Module) (os : Kernel) (s : System) → s.loaded x ≡ true → insmod x os s ≡ (eexist, s)
unfolding insmod
insmod-again x os s on = rw on refl

IsGone-proc : (h : Held) → IsGone h → h.proc_entry ≡ false
IsGone-proc h (inl e) = rw e refl
IsGone-proc h (inr e) = rw e refl

IsGone-region : (h : Held) → IsGone h → h.region ≡ false
IsGone-region h (inl e) = rw e refl
IsGone-region h (inr e) = rw e refl

or_false : (a b c : Bool) → a ≡ false → b ≡ c → (a || b) ≡ c
or_false a b c h g = ground arith

settled-Inv :
    (x : Module) (r : ℤ × Held) (s : System)
    → s.loaded x ≡ false
    → Inv s
    → AllOrNothing (my_exit x) r
    → Inv (settled x r s)
settled-Inv x (ret, h) s off i (inl (zero_ret, proc, region, area, reserved, cdev, exits)) =
    update-Inv x _ _ (not (is_neg ret)) h s i
      (rw zero_ret (or_false _ _ true (i.procs x ∙ off) proc))
      (rw zero_ret (or_false _ _ true (i.regions x ∙ off) region))
      (λ e. record {
        proc_entry = proc;
        region = region;
        area = area;
        reserved = reserved;
        cdev = cdev;
      })
      (rw zero_ret (λ e. absurd cc))
settled-Inv x (ret, h) s off i (inr (failed, left)) =
    update-Inv x _ _ (not (is_neg ret)) h s i
      (rw failed (or_false _ _ false (i.procs x ∙ off) (IsGone-proc h left)))
      (rw failed (or_false _ _ false (i.regions x ∙ off) (IsGone-region h left)))
      (rw failed (λ e. absurd cc)) (λ e. left)

insmod-Inv : (x : Module) (os : Kernel) (s : System) → Inv s → Inv (insmod x os s).1
insmod-Inv x os s i = elim (Bool-cases (s.loaded x)) [
  | inl on ↦ rw (insmod-again x os s on) i
  | inr off ↦
      rw (insmod-fresh x os s off)
        (settled-Inv x (my_init x os) s off i (my_init-AllOrNothing x os))
]

pub run-Inv : (es : List Event) (s : System) → Inv s → Inv (run es s)
unfolding run
run-Inv [] s i = i
run-Inv (load x os ∷ es) s i = run-Inv es (insmod x os s).1 (insmod-Inv x os s i)
run-Inv (unload x ∷ es) s i = run-Inv es (rmmod x s) (rmmod-Inv x s i)

pub booted-Inv : Inv booted
booted-Inv = record {
  procs = λ x. refl;
  regions = λ x. refl;
  full = λ x e. absurd cc;
  gone = λ x e. inl refl;
}

-- From a kernel without them on, whatever modules are loaded and unloaded, in whatever order, and whatever the kernel answers: a
-- name in /proc is taken exactly while its module is loaded, and so is a device number; a module that
-- is loaded holds its area, the reservation of its pages and its device, and one that is not holds
-- nothing, but perhaps the mark on pages that it has freed.
pub loads-Inv : (es : List Event) → Inv (run es booted)
loads-Inv es = run-Inv es booted booted-Inv
