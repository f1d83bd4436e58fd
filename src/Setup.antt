-- ===== src/Setup.antt =====
-- Loading and unloading of the module for several queues,
-- DSA_Kernelspace_Test/3.kernel_test_N_DSAs/kernel_test_sgtable_batch.c: `init_dsa`, `init_region`,
-- `sgtable_to_dma_map`, `my_init` and `my_exit`. What the module holds is a record of its resources.
--
-- The kernel's answers are arguments: whether `kthread_run` succeeds, what each `vmalloc` gives, the
-- list of the PCI devices with their driver's data, and what each `dma_map_sgtable` returns. The
-- unchecked `kmalloc` of `init_dsa` succeeds. `vmalloc_to_sgtable` is `Tables`, and `dsa_copy` is
-- `Worker`; both leave the resources here as they are.
pub mod Queues
pub mod Region
pub mod Lifecycle
pub mod Unmapped
mod Examples
use dsa_test.Base.{
  ◌==◌, ℕ, zero, suc, ◌+◌, ◌-◌, Bool, true, false, ◌&&◌, ◌||◌, Option, none, some, List, [], ◌∷◌,
  ◌++◌, if◌then◌else◌, ℤ, pos, negsuc, neg, is_neg, is_nonzero, length, map,
}

-- `struct idxd_wq`, as `init_dsa` looks at it
pub record IdxdWq : Type 0 where
  pub name : ℕ
  pub enabled : Bool
  pub dmaengine : Bool
  pub kernel : Bool
  pub pasid_enabled : Bool

-- `struct idxd_device`; `wqs` holds `max_wqs` queues.
pub record IdxdDevice : Type 0 where
  pub enabled : Bool
  pub configurable : Bool
  pub wqs : List IdxdWq

-- `struct enabled_idxd_wqs`
pub record EnabledWq : Type 0 where
  pub enabled_wq_num : ℕ
  pub wq : IdxdWq

-- `-ENODEV`, `-ENOMEM`
abbrev pub enodev : ℤ
enodev = neg 19

abbrev pub enomem : ℤ
enomem = neg 12

pub is_usable : IdxdWq → Bool
is_usable wq = wq.enabled && (wq.dmaengine && (wq.kernel && wq.pasid_enabled))

-- The loop over the queues of a device, from `enabled_wqs`; what is added to `idxd_wqs`.
pub scan_wqs : ℕ → List IdxdWq → List EnabledWq × ℕ
unfolding is_usable
scan_wqs enabled_wqs [] = ([], enabled_wqs)
scan_wqs enabled_wqs (wq ∷ wqs) = elim (is_usable wq) [
  | true ↦
      let (added, n) = scan_wqs (enabled_wqs + 1) wqs in
      (record { enabled_wq_num = enabled_wqs; wq = wq } ∷ added, n)
  | false ↦ scan_wqs enabled_wqs wqs
]

-- The queues of a device that are looked at; `none` is a device without driver data.
pub candidates : Option IdxdDevice → List IdxdWq
candidates none = []
candidates (some d) = if d.enabled && d.configurable then d.wqs else []

-- The loop over the PCI devices.
pub scan_devices : ℕ → List (Option IdxdDevice) → List EnabledWq × ℕ
unfolding scan_wqs candidates
scan_devices enabled_wqs [] = ([], enabled_wqs)
scan_devices enabled_wqs (d ∷ ds) =
    let (here, n) = scan_wqs enabled_wqs (candidates d) in
    let (rest, m) = scan_devices n ds in (here ++ rest, m)

-- `init_dsa`: the return value and `idxd_wqs`. On success `random_arr` (`Shuffle`) runs.
pub init_dsa : List (Option IdxdDevice) → ℤ × List EnabledWq
unfolding scan_devices
init_dsa devices =
    let (wqs, enabled_wqs) = scan_devices 0 devices in
    (if enabled_wqs == 0 then enodev else pos 0, wqs)

-- The allocated areas among some results of `vmalloc`; `none` is NULL, for which `vfree` does nothing.
unfoldable pub allocated : List (Option ℕ) → List ℕ
allocated [] = []
allocated (none ∷ areas) = allocated areas
allocated (some a ∷ areas) = a ∷ allocated areas

-- `vfree`: the areas left.
pub vfree : ℕ → List ℕ → List ℕ
vfree a [] = []
vfree a (b ∷ bs) = if a == b then bs else b ∷ vfree a bs

-- a run of `vfree`s
pub vfree_all : List (Option ℕ) → List ℕ → List ℕ
unfolding vfree
vfree_all [] live = live
vfree_all (none ∷ areas) live = vfree_all areas live
vfree_all (some a ∷ areas) live = vfree_all areas (vfree a live)

unfoldable pub any_null : List (Option ℕ) → Bool
any_null [] = false
any_null (none ∷ areas) = true
any_null (some a ∷ areas) = any_null areas

-- What the module holds. `reserved` are the areas whose pages are reserved, `nodes` the allocated
-- `struct enabled_idxd_wqs`, and `channels` the queues whose channel it has a reference to.
pub record Held : Type 0 where
  pub thread : Bool
  pub areas : List ℕ
  pub reserved : List ℕ
  pub idxd_wqs : List EnabledWq
  pub nodes : List EnabledWq
  pub channels : List IdxdWq

abbrev pub nothing : Held
nothing = record {
  thread = false;
  areas = [];
  reserved = [];
  idxd_wqs = [];
  nodes = [];
  channels = [];
}

-- `init_region`, where `vmallocs` are the results of its six calls of `vmalloc`, in order. Only when
-- all are there does it reserve and fill the pages.
pub init_region : List (Option ℕ) → Held → ℤ × Held
unfolding allocated vfree_all any_null
init_region vmallocs s =
    let live = s.areas ++ allocated vmallocs in
    if any_null vmallocs
    then (enomem, record s { areas = vfree_all vmallocs live })
    else (pos 0, record s { areas = live; reserved = s.reserved ++ allocated vmallocs })

-- Characters '0'
pub memset : ℕ → List ℕ
memset zero = []
memset (suc n) = 48 ∷ memset n

-- The text of a page: the label that `sprintf` wrote, its NUL, and the character '0' to the end.
pub page_text : ℕ → List ℕ → List ℕ
unfolding memset
page_text page_size label = label ++ (0 ∷ memset (page_size - length label - 1))

-- What the kernel answers to `my_init`.
pub record Kernel : Type 0 where
  pub kthread_run : Bool
  pub vmallocs : List (Option ℕ)
  pub devices : List (Option IdxdDevice)

-- The end of `my_init`, from the result of `init_dsa` on, up to the copy
pub start_queues : ℤ × List EnabledWq → Held → ℤ × Held
start_queues (dsa_result, wqs) s = (
  if is_neg dsa_result then dsa_result else pos 0,
  record s { idxd_wqs = wqs; nodes = wqs; channels = map (λ e. e.wq) wqs },
)

-- `my_init`, from the result of `init_region` on
pub after_region : List (Option IdxdDevice) → ℤ × Held → ℤ × Held
unfolding start_queues init_dsa
after_region devices (init_result, s) = elim (is_neg init_result) [
  | true ↦ (init_result, s)
  | false ↦ start_queues (init_dsa devices) s
]

-- `my_init`
pub my_init : Kernel → ℤ × Held
unfolding init_region after_region
my_init os = elim os.kthread_run [
  | false ↦ (neg 1, nothing)
  | true ↦ after_region os.devices (init_region os.vmallocs (record nothing { thread = true }))
]

-- `exit_module`: it clears the reservations and frees the six areas.
pub exit_module : List (Option ℕ) → Held → Held
unfolding vfree_all
exit_module vmallocs s = record s {
  areas = vfree_all vmallocs s.areas;
  reserved = vfree_all vmallocs s.reserved;
}

-- `my_exit`. `release_channels` drops one reference for each queue on `idxd_wqs`; the entries of the
-- list are not freed.
pub my_exit : List (Option ℕ) → Held → Held
unfolding exit_module
my_exit vmallocs s =
    exit_module vmallocs (record s { thread = false; channels = []; idxd_wqs = [] })

-- `sgtable_to_dma_map`: the tables that it maps, each as the number of its queue and whether it is
-- the destination's. `fails` tells which calls of `dma_map_sgtable` return an error.
pub sgtable_to_dma_map : (ℕ → Bool → Bool) → List EnabledWq → List (ℕ × Bool)
sgtable_to_dma_map fails [] = []
sgtable_to_dma_map fails (w ∷ wqs) =
    let rest = sgtable_to_dma_map fails wqs in
    if fails w.enabled_wq_num false
    then []
    else if fails w.enabled_wq_num true
    then (w.enabled_wq_num, false) ∷ []
    else (w.enabled_wq_num, false) ∷ (w.enabled_wq_num, true) ∷ rest

-- What `dsa_copy` does with the tables in the end, in order.
pub data Ended : Type 0 where
  unmap : ℕ × Bool → Ended
  free : ℕ × Bool → Ended

-- The loop behind the wait of `dsa_copy`
pub unmap_tables : List EnabledWq → List Ended
unmap_tables [] = []
unmap_tables (w ∷ wqs) =
    unmap (w.enabled_wq_num, false)
    ∷ unmap (w.enabled_wq_num, true)
    ∷ free (w.enabled_wq_num, false)
    ∷ free (w.enabled_wq_num, true)
    ∷ unmap_tables wqs

abbrev pub unmapped : List Ended → List (ℕ × Bool)
unmapped [] = []
unmapped (unmap t ∷ es) = t ∷ unmapped es
unmapped (free t ∷ es) = unmapped es

abbrev pub freed : List Ended → List (ℕ × Bool)
freed [] = []
freed (unmap t ∷ es) = freed es
freed (free t ∷ es) = t ∷ freed es
