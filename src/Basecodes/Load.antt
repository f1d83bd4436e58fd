-- ===== src/Basecodes/Load.antt =====
-- `my_init` and `my_exit` of kernel_test_basecodes.c, with `init_dsa` of `Probe`, which this file has
-- word by word, and `init_region` and `exit_module`, which nothing calls: `my_init` has
-- `init_region_page` in the place of the former, and `my_exit` has `exit_module_page` in that of the
-- latter.
pub mod Cases
pub mod Copied
mod Examples
use dsa_test.Base.{
  ℕ, Bool, true, false, Option, none, some, List, [], ℤ, pos, is_neg, Outcome, returns, ◌>>=◌,
  deref, if◌then◌else◌,
}
use mathlib.Core.Option
use dsa_test.Desc.{Desc, Wq}
use dsa_test.Retry.{Attempt}
use dsa_test.Setup.{allocated, any_null, vfree_all}
use dsa_test.Setup
use dsa_test.Probe
use dsa_test.Probe.{IdxdWq, init_dsa}
use dsa_test.Basecodes.{Report, pointer, dsa_copy, init_region_page, exit_module_page}

-- What the kernel answers: the runs of `alloc_pages` and whether they are contiguous, the PCI devices
-- with their queues, whether `dma_get_slave_channel` gives the channel, the queue as the descriptor needs
-- it, the address of a mapped run of pages, and what `dsa_copy` gets.
pub record Os : Type 0 where
  pub alloc_pages : ℕ → Option ℕ
  pub contiguous : ℕ → Bool
  pub devices : List (Option (List IdxdWq))
  pub get_channel : IdxdWq → Bool
  pub queue : IdxdWq → Wq
  pub dma_map_page : ℕ → ℕ
  pub dma_prep_interrupt : ℕ
  pub desc : Option Desc
  pub attempts : ℕ → Attempt
  pub differs : Bool

-- What the module holds: `page1` to `page4`, `chan`, and how the copy ended.
pub record Held : Type 0 where
  pub pages : List ℕ
  pub chan : Option IdxdWq
  pub copied : Option Report

-- The call of `dsa_copy`, which maps `page1` and `page2`
pub run_copy : Os → Held → Outcome Held
unfolding pointer
run_copy os s = do
  page1 ← deref (pointer 0 s.pages)
  page2 ← deref (pointer 1 s.pages)
  r ←
      dsa_copy os.dma_prep_interrupt (Option.map os.queue s.chan) os.desc os.attempts
        (os.dma_map_page page2) (os.dma_map_page page1) os.differs
  returns (record s { copied = some r })

-- `my_init` from the result of `init_region_page` on
pub after_region : Os → ℤ → Held → Outcome (ℤ × Held)
unfolding run_copy
after_region os init_result s = elim (is_neg init_result) [
  | true ↦ returns (init_result, s)
  | false ↦ init_dsa os.get_channel os.devices >>= λ (dsa_result, chan). elim (is_neg dsa_result) [
    | true ↦ returns (dsa_result, record s { chan = chan })
    | false ↦ run_copy os (record s { chan = chan }) >>= λ s'. returns (pos 0, s')
  ]
]

-- `my_init`
pub my_init : Os → Outcome (ℤ × Held)
unfolding after_region
my_init os = init_region_page os.alloc_pages os.contiguous >>= λ (init_result, pages, freed).
    after_region os init_result (record { pages = pages; chan = none; copied = none })

-- `my_exit`: the runs of pages that it frees, and the queue whose channel it releases
pub my_exit : Held → Outcome (List ℕ × IdxdWq)
my_exit s = do freed ← exit_module_page s.pages; wq ← Probe.my_exit s.chan; returns (freed, wq)

-- `init_region`: the return value, the areas, and those of which the pages are reserved. `kfree(NULL)`
-- does nothing. The text of the pages is as in `Setup`.
pub init_region : List (Option ℕ) → ℤ × List ℕ × List ℕ
init_region kmallocs =
    if any_null kmallocs
    then (Setup.enomem, vfree_all kmallocs (allocated kmallocs), [])
    else (pos 0, allocated kmallocs, allocated kmallocs)

-- `exit_module`: what is left of the areas and of the reservations
pub exit_module : List (Option ℕ) → List ℕ → List ℕ → List ℕ × List ℕ
exit_module kmallocs areas reserved = (vfree_all kmallocs areas, vfree_all kmallocs reserved)
