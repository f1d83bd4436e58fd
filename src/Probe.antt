-- ===== src/Probe.antt =====
-- `init_dsa`, and the end of `my_exit`, of
-- DSA_Kernelspace_Test/1.kernel_test/kernel_test_sgtable.c: the one queue that the module copies with.
--
-- A device is `none` without driver data. Whether `dma_get_slave_channel` gives the channel is an
-- argument; it then counts one client more.
pub mod Channel
use dsa_test.Base.{
  ℕ, ◌+◌, ◌-◌, Bool, true, false, Option, none, some, List, get_elem?, length, ltb, if◌then◌else◌,
  ℤ, pos, neg, Outcome, returns, fault, ◌>>=◌, deref,
}

-- `DSA_LIST`, `DSA_NUM` and `WQ_NUM` of kernel_test.h
abbrev pub dsa_list : ℕ
dsa_list = 8

abbrev pub dsa_num : ℕ
dsa_num = 2

abbrev pub wq_num : ℕ
wq_num = 1

-- `struct idxd_wq`, as far as it is read
pub record IdxdWq : Type 0 where
  pub enabled : Bool
  pub dmaengine : Bool
  pub client_count : ℕ

-- What follows the tests: a client that is there is released, and the channel is taken. `none` is a
-- NULL `chan`.
pub take_channel : (IdxdWq → Bool) → IdxdWq → Option IdxdWq
take_channel dma_get_slave_channel wq =
    let released =
      if ltb 0 wq.client_count then record wq { client_count = wq.client_count - 1 } else wq in
    if dma_get_slave_channel released
    then some (record released { client_count = released.client_count + 1 })
    else none

-- `init_dsa`: the return value and `chan`, for the queues of each device that `pci_get_device` finds.
pub init_dsa : (IdxdWq → Bool) → List (Option (List IdxdWq)) → Outcome (ℤ × Option IdxdWq)
unfolding take_channel
init_dsa dma_get_slave_channel devices =
    if ltb (length devices) dsa_list
    then returns (neg 1, none)
    else (deref (get_elem? devices dsa_num) >>= λ device. elim device [
      | none ↦ returns (neg 1, none)
      | some wqs ↦ deref (get_elem? wqs wq_num) >>= λ wq.
          if wq.enabled
          then if wq.dmaengine
            then returns (pos 0, take_channel dma_get_slave_channel wq)
            else returns (pos 0, none)
          else returns (neg 1, none)
    ])

-- `my_exit`: `dma_release_channel` reads through `chan`.
unfoldable pub my_exit : Option IdxdWq → Outcome IdxdWq
my_exit chan = deref chan >>= λ wq. returns (record wq { client_count = wq.client_count - 1 })
