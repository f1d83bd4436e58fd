-- ===== src/Retry.antt =====
-- The loops that hand one descriptor to the engine, wait for its report, and go on behind a page
-- fault:
-- `main` of DSA_Userspace_Test/memmove_CPU_VS_DSA-userguide_ref-codes_TEST/memmove_userguide_ref.c,
-- and `dsa_copy` of DSA_Kernelspace_Test/1.kernel_test/kernel_test_basecodes.c.
--
-- What the processor and the engine do in round `k` is the argument `attempts k`: whether ENQCMD
-- asks to be retried, whether the completion record still reads 0 at a test of the poll loop, and
-- what it reads when that loop is over. The clock, `umonitor` and `umwait` and the touch of the
-- page that faulted change none of the program's data.
pub mod Wait
pub mod Resume
pub mod Copied
pub mod Bytes
use dsa_test.Base.{
  ℕ, zero, suc, ◌+◌, ◌-◌, ◌%◌, ◌^◌, Bool, true, false, ◌||◌, Option, none, some, leb, ltb, ◌==◌,
  if◌then◌else◌, Outcome, deref, ◌>>=◌, returns,
}
use dsa_test.Desc.{HwDesc, Desc, Wq, idxd_desc_dma_submit_memcpy, submit_flags, comp_success}

-- `struct dsa_completion_record`, as far as the loops read it
pub record Comp : Type 0 where
  pub status : ℕ
  pub bytes_completed : ℕ

pub record Attempt : Type 0 where
  pub rejects : ℕ → Bool
  pub busy : ℕ → Bool
  pub comp : Comp

-- `DSA_COMP_PAGE_FAULT_NOBOF`
abbrev pub page_fault_nobof : ℕ
page_fault_nobof = 3

-- `op_status`, and `DSA_COMP_STATUS` of the driver: the mask 0x7f
abbrev pub op_status : ℕ → ℕ
op_status status = status % 2 ^ 7

-- `while (busy && retry++ < max) ;`, which leaves `retry`. The test fails at `retry == max` at the
-- latest, so that `suc (max - retry)` rounds are enough.
pub wait_while : (ℕ → Bool) → ℕ → ℕ → ℕ → ℕ
wait_while busy max zero retry = retry
wait_while busy max (suc fuel) retry =
    let rest = wait_while busy max fuel (retry + 1) in
    if busy retry then (if ltb retry max then rest else retry + 1) else retry

-- The descriptor behind a page fault: `u64` addresses, and a `u32` length.
pub resume : HwDesc → Comp → HwDesc
resume hw c = record hw {
  src_addr = (hw.src_addr + c.bytes_completed) % 2 ^ 64;
  dst_addr = (hw.dst_addr + c.bytes_completed) % 2 ^ 64;
  xfer_size = (hw.xfer_size + 2 ^ 32 - c.bytes_completed) % 2 ^ 32;
}

-- How a copy ends, by what the program prints.
pub data Exit : Type 0 where
  enqcmd_limit poll_limit moved unfinished : Exit
  failed : ℕ → Exit

-- what follows a round: `goto done`, or `goto retry` with a changed descriptor
pub data Next : Type 0 where
  leave : Exit → Next
  again : HwDesc → Next

-- `if (comp.status != DSA_COMP_SUCCESS) …`
judge : Comp → HwDesc → Next
judge c hw =
    if c.status == comp_success
    then leave moved
    else if op_status c.status == page_fault_nobof
    then again (resume hw c)
    else leave (failed c.status)

-- One round from the label `retry` of `memmove_userguide_ref.c`, for the limits `enq_max` and
-- `poll_max`.
unfoldable pub round : ℕ → ℕ → Attempt → HwDesc → Next
unfolding wait_while resume judge
round enq_max poll_max a hw =
    if wait_while a.rejects enq_max (suc enq_max) 0 == enq_max
    then leave enqcmd_limit
    else if wait_while a.busy poll_max (suc poll_max) 0 == poll_max
    then leave poll_limit
    else judge a.comp hw

-- The rounds from number `k` on, at most `fuel` of them.
unfoldable pub rounds : ℕ → ℕ → (ℕ → Attempt) → ℕ → ℕ → HwDesc → Exit × HwDesc
rounds enq_max poll_max attempts zero k hw = (unfinished, hw)
rounds enq_max poll_max attempts (suc fuel) k hw = elim (round enq_max poll_max (attempts k) hw) [
  | leave x ↦ (x, hw)
  | again hw' ↦ rounds enq_max poll_max attempts fuel (k + 1) hw'
]

-- The value that `main` returns: EXIT_SUCCESS only if the engine succeeded and `memcmp` finds no
-- difference.
pub exit_code : Exit → Bool → ℕ
exit_code moved differs = if differs then 1 else 0
exit_code _ differs = 1
