-- ===== src/Load.antt =====
-- Loading and unloading of the module for one queue,
-- DSA_Kernelspace_Test/1.kernel_test/kernel_test_sgtable.c: `init_region`, `sgtable_to_dma_map`,
-- `my_init` and `my_exit`, with `init_dsa` (`Probe`), `test` and `vmalloc_to_sgtable` (`Single`) and
-- `dsa_copy` (`Copy.Loop`) in their places.
--
-- What the module holds is a record of its resources; the entries that the copy leaves on
-- `idxd_desc_lists` are those of its `End`. `kzalloc`, which the code does not check, succeeds.
pub mod Stages
pub mod Copied
pub mod Unload
mod Examples
use dsa_test.Base.{
  ℕ, Bool, true, false, not, Option, none, some, List, [], ℤ, pos, is_neg, get_or, if◌then◌else◌,
  Outcome, returns, ◌>>=◌, deref,
}
use dsa_test.Desc.{Wq, Seg}
use dsa_test.Setup.{allocated, any_null, vfree_all, enomem}
use dsa_test.Probe
use dsa_test.Probe.{IdxdWq, init_dsa}
use dsa_test.Single.{vmalloc_to_sgtable, test}
use dsa_test.Copy.Loop.{Kernel, End, submit_failed, finished, dsa_copy}

-- What the module holds. `reserved` are the areas whose pages are reserved, `structs` the number of
-- allocated `struct sg_table`s, `sgt1` and `sgt2` the pages of these tables, and `test_tables` tells
-- whether `sgt3` and `sgt4` have entries. `copied` is how `dsa_copy` ended.
pub record Held : Type 0 where
  pub areas : List ℕ
  pub reserved : List ℕ
  pub chan : Option IdxdWq
  pub structs : ℕ
  pub test_tables : Bool
  pub test_mapped : Bool
  pub sgt1 : List ℕ
  pub sgt2 : List ℕ
  pub mapped1 : Bool
  pub mapped2 : Bool
  pub copied : Option End

abbrev pub nothing : Held
nothing = record {
  areas = [];
  reserved = [];
  chan = none;
  structs = 0;
  test_tables = false;
  test_mapped = false;
  sgt1 = [];
  sgt2 = [];
  mapped1 = false;
  mapped2 = false;
  copied = none;
}

-- What the kernel answers: the six calls of `vmalloc`, the PCI devices and their queues, whether
-- `dma_get_slave_channel` gives the channel, whether `sg_alloc_table` and `dma_map_sgtable` fail for
-- `sgt1` to `sgt4`, the page of an address, the entries of a table with and without a mapping, and
-- what `dsa_copy` gets. `queue` is a queue as the descriptors need it.
pub record Os : Type 0 where
  pub npages : ℕ
  pub vmallocs : List (Option ℕ)
  pub devices : List (Option (List IdxdWq))
  pub get_channel : IdxdWq → Bool
  pub alloc_fails : ℕ → Bool
  pub to_page : ℕ → Option ℕ
  pub map_fails : ℕ → Bool
  pub mapped : List ℕ → List Seg
  pub unmapped : List ℕ → List Seg
  pub queue : IdxdWq → Wq
  pub copies : Kernel

-- `init_region`; the text of the pages is as in `Setup`.
pub init_region : List (Option ℕ) → Held → ℤ × Held
init_region vmallocs s =
    if any_null vmallocs
    then (enomem, record s { areas = vfree_all vmallocs (allocated vmallocs) })
    else (pos 0, record s { areas = allocated vmallocs; reserved = allocated vmallocs })

-- The call of `test`, on `vmalloc_area5` and `vmalloc_area6`
pub run_test : Os → Held → Held
run_test os s =
    let left =
      test (os.alloc_fails 3) (os.alloc_fails 4) os.to_page (get_or s.areas 4 0)
        (get_or s.areas 5 0) os.npages (os.map_fails 3) (os.map_fails 4) in
    record s { structs = 2; test_tables = not left.freed; test_mapped = left.mapped3 }

-- The call of `vmalloc_to_sgtable`, on `vmalloc_area` and `vmalloc_area2`
pub make_tables : Os → Held → Held
make_tables os s =
    let (pages, pages2) =
      vmalloc_to_sgtable (os.alloc_fails 1) (os.alloc_fails 2) os.to_page (get_or s.areas 0 0)
        (get_or s.areas 1 0) os.npages in
    record s { structs = 4; sgt1 = pages; sgt2 = pages2 }

-- `sgtable_to_dma_map`
pub sgtable_to_dma_map : Os → Held → Held
sgtable_to_dma_map os s =
    if os.map_fails 1
    then s
    else if os.map_fails 2
    then record s { mapped1 = true }
    else record s { mapped1 = true; mapped2 = true }

-- The entries that `dsa_copy` reads from a table
pub entries_of : Os → Bool → List ℕ → List Seg
entries_of os mapped pages = if mapped then os.mapped pages else os.unmapped pages

-- The end of `dsa_copy`: it unmaps and frees both tables, unless a submission failed.
pub after_copy : End → Held → Held
after_copy (submit_failed log) s = record s { copied = some (submit_failed log) }
after_copy (finished log es poll) s = record s {
  sgt1 = [];
  sgt2 = [];
  mapped1 = false;
  mapped2 = false;
  copied = some (finished log es poll);
}

-- The call of `dsa_copy`, which reads the queue through `chan`.
pub copy : Os → Held → Outcome Held
unfolding after_copy entries_of
copy os s = deref s.chan >>= λ chan.
    dsa_copy os.copies (os.queue chan) (entries_of os s.mapped1 s.sgt1)
      (entries_of os s.mapped2 s.sgt2)
    >>= λ how. returns (after_copy how s)

-- `my_init` from `test` on
pub after_dsa : Os → Held → Outcome (ℤ × Held)
unfolding run_test make_tables sgtable_to_dma_map copy
after_dsa os s =
    copy os (sgtable_to_dma_map os (make_tables os (run_test os s))) >>= λ s'. returns (pos 0, s')

-- `my_init` from the result of `init_region` on
pub after_region : Os → ℤ × Held → Outcome (ℤ × Held)
unfolding after_dsa
after_region os (init_result, s) = elim (is_neg init_result) [
  | true ↦ returns (init_result, s)
  | false ↦ init_dsa os.get_channel os.devices >>= λ (dsa_result, chan). elim (is_neg dsa_result) [
    | true ↦ returns (dsa_result, s)
    | false ↦ after_dsa os (record s { chan = chan })
  ]
]

-- `my_init`
pub my_init : Os → Outcome (ℤ × Held)
unfolding init_region after_region
my_init os = after_region os (init_region os.vmallocs nothing)

-- `exit_module`
pub exit_module : Os → Held → Held
exit_module os s = record s {
  areas = vfree_all os.vmallocs s.areas;
  reserved = vfree_all os.vmallocs s.reserved;
  test_tables = false;
}

-- `my_exit`: `dma_release_channel` reads through `chan`.
pub my_exit : Os → Held → Outcome Held
unfolding exit_module
my_exit os s =
    Probe.my_exit s.chan >>= λ released. returns (record (exit_module os s) { chan = none })
