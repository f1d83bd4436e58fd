-- ===== src/Basecodes.antt =====
-- DSA_Kernelspace_Test/1.kernel_test/kernel_test_basecodes.c: one copy between two runs of pages,
-- with its own allocation, and one descriptor that goes on behind page faults.
--
-- `alloc i` is what call `i` of `alloc_pages` returns, `contiguous` the test of the page frame
-- numbers, and `attempts k` what the engine does in round `k` (see `Retry`; nothing is rejected
-- here). `__free_pages` and `to_idxd_wq` read through their argument, so that NULL is a fault. The
-- texts that the pages are filled with, the clock and the copy by the processor are left out.
pub mod Rounds
pub mod Region
pub mod Copied
pub mod Load
pub mod Success
mod Examples
use dsa_test.Base.{
  ℕ, zero, suc, ◌+◌, ◌*◌, ◌-◌, ◌^◌, Bool, true, false, ◌||◌, Option, none, some, List, [], ◌∷◌,
  ◌++◌, leb, ◌==◌, if◌then◌else◌, ℤ, pos, neg, Outcome, returns, fault, ◌>>=◌, deref,
}
use dsa_test.Desc.{HwDesc, Desc, Wq, comp_success, submit_flags, idxd_desc_dma_submit_memcpy}
use dsa_test.Retry.{
  Comp, Attempt, Exit, poll_limit, moved, unfinished, failed, page_fault_nobof, op_status,
  wait_while, resume,
}

-- `POLL_RETRY_MAX`, `FAULT_RETRY_MAX` and `PAGE_ORDER` of kernel_test.h
abbrev pub poll_retry_max : ℕ
poll_retry_max = 1_000_000

abbrev pub fault_retry_max : ℕ
fault_retry_max = 10_000

abbrev pub page_order : ℕ
page_order = 8

abbrev pub page_size : ℕ
page_size = 4096

-- `ENOMEM`
abbrev pub enomem : ℕ
enomem = 12

-- The counters `poll` and `fault` of `dsa_copy`, and the descriptor.
pub record Retrying : Type 0 where
  pub poll : ℕ
  pub faults : ℕ
  pub hw : HwDesc

pub data Next : Type 0 where
  leave : Exit → Retrying → Next
  again : Retrying → Next

-- the tests behind the limits
judge : Comp → Retrying → Next
judge c r =
    if c.status == comp_success
    then leave moved r
    else if op_status c.status == page_fault_nobof
    then again (record r { faults = r.faults + 1; hw = resume r.hw c })
    else leave (failed c.status) (record r { faults = r.faults + 1 })

-- One round from the label `retry` of `dsa_copy`. Neither `poll` nor the completion record is set
-- back.
pub round : ℕ → ℕ → Attempt → Retrying → Next
unfolding judge
round poll_max fault_max a r =
    let r' = record r { poll = wait_while a.busy poll_max (suc poll_max) r.poll } in
    if leb poll_max r'.poll || leb fault_max r'.faults then leave poll_limit r' else judge a.comp r'

pub rounds : ℕ → ℕ → (ℕ → Attempt) → ℕ → ℕ → Retrying → Exit × Retrying
rounds poll_max fault_max attempts zero k r = (unfinished, r)
rounds poll_max fault_max attempts (suc fuel) k r = elim (round poll_max fault_max (attempts k) r) [
  | leave x r' ↦ (x, r')
  | again r' ↦ rounds poll_max fault_max attempts fuel (k + 1) r'
]

-- What `dsa_copy` leaves behind: how the descriptor ended, and whether the two areas then differ.
-- The descriptor is completed and both areas are unmapped on every path that returns.
pub record Report : Type 0 where
  pub exit : Exit
  pub last : Retrying
  pub differs : Bool

-- `dsa_copy`. A descriptor that is NULL passes the test of `IS_ERR`.
pub dsa_copy : ℕ → Option Wq → Option Desc → (ℕ → Attempt) → ℕ → ℕ → Bool → Outcome Report
dsa_copy dma_prep_interrupt chan alloc attempts dst1 src1 differs = do
  wq ← deref chan
  let len = page_size * 2 ^ page_order
  d ← deref (idxd_desc_dma_submit_memcpy dma_prep_interrupt wq alloc dst1 src1 len submit_flags)
  let ended =
      rounds poll_retry_max fault_retry_max attempts (suc fault_retry_max) 0
        (record { poll = 0; faults = 0; hw = d.hw })
  returns (record { exit = ended.0; last = ended.1; differs = differs })

-- The allocations of `init_region_page`, with `n` left and `pages` made: the pages, and whether it
-- came to `goto out`.
pub alloc_runs : (ℕ → Option ℕ) → (ℕ → Bool) → ℕ → ℕ → List ℕ → Bool × List ℕ
alloc_runs alloc contiguous zero i pages = (true, pages)
alloc_runs alloc contiguous (suc n) i pages = elim (alloc i) [
  | none ↦ (false, pages)
  | some page ↦
      let rest = alloc_runs alloc contiguous n (i + 1) (pages ++ page ∷ []) in
      if contiguous page then rest else (false, pages ++ page ∷ [])
]

-- `page1` to `page4`, which are NULL from the start
pub pointer : ℕ → List ℕ → Option ℕ
pointer i [] = none
pointer zero (p ∷ ps) = some p
pointer (suc i) (p ∷ ps) = pointer i ps

-- `__free_pages`
free_pages : Option ℕ → Outcome (List ℕ) → Outcome (List ℕ)
free_pages p rest = do page ← deref p; pages ← rest; returns (page ∷ pages)

-- `init_region_page`: the value that it returns, the pages that it keeps and those that it frees
pub init_region_page : (ℕ → Option ℕ) → (ℕ → Bool) → Outcome (ℤ × List ℕ × List ℕ)
unfolding alloc_runs pointer free_pages
init_region_page alloc contiguous =
    let (fine, pages) = alloc_runs alloc contiguous 4 0 [] in
    if fine then returns (pos 0, pages, []) else do
      freed ← free_pages (pointer 0 pages) (
          free_pages (pointer 1 pages)
            (free_pages (pointer 2 pages) (free_pages (pointer 3 pages) (returns []))))
      returns (neg enomem, [], freed)

-- `exit_module_page`: the pages that it frees
pub exit_module_page : List ℕ → Outcome (List ℕ)
unfolding pointer free_pages
exit_module_page pages = free_pages (pointer 0 pages) (
    free_pages (pointer 1 pages)
      (free_pages (pointer 2 pages) (free_pages (pointer 3 pages) (returns []))))
