-- ===== src/Copy/Finish.antt =====
-- The submissions, the polling and the release of the tables of `dsa_copy` of
-- DSA_Kernelspace_Test/1.kernel_test/kernel_test_sgtable_batch.c, with the two mappings of a batch.
--
-- What the kernel's part does enters as arguments: which submissions `idxd_submit_desc` refuses (by
-- their number), and the status that the completion record of an entry shows at each poll. `done`
-- are the addresses that `dma_unmap_single` has been given. The printing, the processor's copy and
-- the comparison of the areas are left out.
pub mod Mappings
pub mod Ends
pub mod Timeout
mod Examples
use dsa_test.Base.{
  ℕ, zero, suc, ◌+◌, Bool, true, false, not, ◌&&◌, Option, none, some, List, [], ◌∷◌, ◌++◌, ltb,
  ◌==◌, if◌then◌else◌, Outcome, returns, ◌>>=◌, deref,
}
use dsa_test.Desc.{Wq, Seg, Grant, DescList, comp_success}
use dsa_test.Copy.{div_up, batch_lists}
use dsa_test.Copy.Loop.{poll_retry_max}

-- A list entry, with its place in `idxd_desc_lists`.
pub record Entry : Type 0 where
  pub number : ℕ
  pub item : DescList

abbrev pub numbered : ℕ → List DescList → List Entry
numbered i [] = []
numbered i (l ∷ ls) = record { number = i; item = l } ∷ numbered (i + 1) ls

-- The addresses that the kernel has mapped for an entry.
abbrev pub mappings : DescList → List ℕ
mappings l = elim l.batch_info [ none ↦ [] | some b ↦ b.compls_addr ∷ b.hw_descs_addr ∷ [] ]

-- The submissions, from number `k` on: the number of the one that is refused.
pub submit_entries : (ℕ → Bool) → ℕ → List DescList → Outcome (Option ℕ)
submit_entries refuses k [] = returns none
submit_entries refuses k (l ∷ ls) = deref l.desc >>= λ d.
    let rest = submit_entries refuses (k + 1) ls in if refuses k then returns (some k) else rest

-- What one pass over the list leaves, unmaps and counts.
pub record Pass : Type 0 where
  pub kept : List Entry
  pub unmapped : List ℕ
  pub counted : ℕ

abbrev keep : Entry → Pass → Pass
keep e p = record p { kept = e ∷ p.kept }

-- The body of `list_for_each_entry_safe`
pub visit_entry : ℕ → Entry → Pass → Pass
visit_entry status e p =
    if e.item.completion == 0
    then if status == comp_success
      then record p { unmapped = mappings e.item ++ p.unmapped; counted = p.counted + 1 }
      else if ltb comp_success status
      then keep (record e { item = record e.item { completion = 1 } })
          (record p { counted = p.counted + 1 })
      else keep e p
    else keep e p

pub sweep_entries : (ℕ → ℕ) → List Entry → Pass
unfolding visit_entry
sweep_entries status [] = record { kept = []; unmapped = []; counted = 0 }
sweep_entries status (e ∷ es) = visit_entry (status e.number) e (sweep_entries status es)

-- `while (poll++ < POLL_RETRY_MAX && poll_entry < nents)`, with `n` passes left: the list, what has
-- been unmapped, and `poll` at its end.
pub poll_entries : (ℕ → ℕ → ℕ) → ℕ → ℕ → ℕ → ℕ → List Entry → List ℕ → List Entry × List ℕ × ℕ
unfolding sweep_entries
poll_entries status zero poll nents poll_entry es done = (es, done, poll + 1)
poll_entries status (suc n) poll nents poll_entry es done = elim (ltb poll_entry nents) [
  | false ↦ (es, done, poll + 1)
  | true ↦
      let p = sweep_entries (status poll) es in
      poll_entries status n (poll + 1) nents (poll_entry + p.counted) p.kept (done ++ p.unmapped)
]

-- `sgt1` and `sgt2`: whether each is mapped, and whether it has entries.
pub record SgTables : Type 0 where
  pub mapped1 : Bool
  pub mapped2 : Bool
  pub entries1 : Bool
  pub entries2 : Bool

-- `dma_unmap_sgtable` and `sg_free_table` of both tables
pub unmap_and_free : SgTables → SgTables
unmap_and_free t =
    let unmapped = record t { mapped1 = false; mapped2 = false } in
    record unmapped { entries1 = false; entries2 = false }

-- Where `dsa_copy` ends, with the tables then: at `out`, at the number of the submission that was
-- refused, or after its polls.
pub data End : Type 0 where
  refused : ℕ → SgTables → End
  finished : List Entry → List ℕ → ℕ → SgTables → End

-- Neither mapped nor with entries.
abbrev pub released : SgTables
released = record { mapped1 = false; mapped2 = false; entries1 = false; entries2 = false }

-- `nents`
abbrev pub entry_count : ℕ → ℕ → ℕ → ℕ
entry_count max nents1 nents2 =
    if ltb 1 nents1 && ltb 1 nents2
    then div_up (if ltb nents2 nents1 then nents2 else nents1) max
    else 1

-- From the submissions on.
pub copy_entries : (ℕ → Bool) → (ℕ → ℕ → ℕ) → SgTables → ℕ → List DescList → Outcome End
unfolding submit_entries poll_entries unmap_and_free
copy_entries refuses status tables nents ls = submit_entries refuses 0 ls >>= λ r. elim r [
  | some k ↦ returns (refused k tables)
  | none ↦
      let (kept, done, poll) = poll_entries status poll_retry_max 0 nents 0 (numbered 0 ls) [] in
      returns (finished kept done poll (unmap_and_free tables))
]

-- `dsa_copy`
pub dsa_copy :
    ℕ
    → Wq
    → (ℕ → Grant)
    → (ℕ → Bool)
    → (ℕ → ℕ → ℕ)
    → SgTables
    → ℕ
    → ℕ
    → List Seg
    → List Seg
    → Outcome End
unfolding copy_entries
dsa_copy dma_prep_interrupt wq grants refuses status tables nents1 nents2 srcs dsts =
    batch_lists dma_prep_interrupt wq grants nents1 nents2 srcs dsts
    >>= copy_entries refuses status tables (entry_count wq.idxd.max_batch_size nents1 nents2)
