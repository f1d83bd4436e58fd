-- ===== src/Copy/Loop.antt =====
-- `dsa_copy` of DSA_Kernelspace_Test/1.kernel_test/kernel_test_sgtable.c: rounds of at most
-- `num_descs` descriptors, each round submitted and then polled.
--
-- What is left out: the timing, the unmapping, the comparison of the areas and the CPU copy that
-- follow the last round. The kernel's part enters as arguments: what `idxd_alloc_desc` gives to each
-- entry, which submissions `idxd_submit_desc` refuses (by their number), and the status that an
-- entry's completion record shows at each poll of each round. The log of submitted descriptors is
-- not in the source.
pub mod Submitted
pub mod Polls
pub mod Success
mod Examples
use dsa_test.Base.{
  ◌≡◌, refl, ℕ, zero, suc, ◌+◌, ◌*◌, ◌-◌, min, Bool, true, false, ◌&&◌, Option, none, some, List,
  [], ◌∷◌, ◌++◌, ltb, ◌==◌, if◌then◌else◌, Outcome, returns, fault, ◌>>=◌, deref, length,
}
use dsa_test.Desc.{Desc, Wq, Seg, submit_flags, comp_success, idxd_desc_dma_submit_memcpy}
use dsa_test.Copy.{first, div_up, chunk_size}

-- `POLL_RETRY_MAX`
abbrev pub poll_retry_max : ℕ
poll_retry_max = 1000000

-- `struct idxd_desc_list`, with the number of its allocation
pub record Entry : Type 0 where
  pub number : ℕ
  pub desc : Option Desc
  pub completion : Bool

-- What the kernel answers.
pub record Kernel : Type 0 where
  pub dma_prep_interrupt : ℕ
  pub alloc : ℕ → Option Desc
  pub refuses : ℕ → Bool
  pub status : ℕ → ℕ → ℕ → ℕ

-- The entry that a pair of segments gives.
abbrev pub new_entry : Kernel → Wq → ℕ → Seg → Seg → Entry
new_entry os wq i dst src = record {
  number = i;
  desc =
      idxd_desc_dma_submit_memcpy os.dma_prep_interrupt wq (os.alloc i) dst.dma_address
        src.dma_address (min src.dma_len dst.dma_len) submit_flags;
  completion = false;
}

-- `for_each_2_sg(dst, src, sg_dst, sg_src, nents, i)`: `n` entries, numbered from `i`, and the rest
-- of both chains.
pub fill_entries :
    Kernel → Wq → ℕ → ℕ → List Seg → List Seg → Outcome (List Entry × List Seg × List Seg)
fill_entries os wq zero i dsts srcs = returns ([], dsts, srcs)
fill_entries os wq (suc n) i [] srcs = fault
fill_entries os wq (suc n) i (d ∷ dsts) [] = fault
fill_entries os wq (suc n) i (d ∷ dsts) (s ∷ srcs) =
    fill_entries os wq n (i + 1) dsts srcs >>= λ (es, dsts', srcs').
    returns (new_entry os wq i d s ∷ es, dsts', srcs')

-- The submissions of a list. It returns the log, and whether none was refused.
pub submit_all : (ℕ → Bool) → List Entry → List Desc → Outcome (Bool × List Desc)
submit_all refuses [] log = returns (true, log)
submit_all refuses (e ∷ es) log = deref e.desc >>= λ d.
    if refuses (length log) then returns (false, log) else submit_all refuses es (log ++ (d ∷ []))

-- One pass over the list: the entries that stay, and how far `poll_entry` goes up.
unfoldable pub sweep : (ℕ → ℕ) → List Entry → List Entry × ℕ
sweep status [] = ([], 0)
sweep status (e ∷ es) =
    let (kept, n) = sweep status es in
    if e.completion
    then (e ∷ kept, n)
    else if status e.number == comp_success
    then (kept, n + 1)
    else if ltb comp_success (status e.number)
    then (record e { completion = true } ∷ kept, n + 1)
    else (e ∷ kept, n)

-- `while (poll++ < POLL_RETRY_MAX && poll_entry < nents)`, with `n` passes left: the list and
-- `poll` at its end.
unfoldable pub poll_loop : (ℕ → ℕ → ℕ) → ℕ → ℕ → ℕ → ℕ → List Entry → List Entry × ℕ
unfolding sweep
poll_loop status zero poll nents poll_entry es = (es, poll + 1)
poll_loop status (suc n) poll nents poll_entry es = elim (ltb poll_entry nents) [
  | false ↦ (es, poll + 1)
  | true ↦
      let (kept, more) = sweep (status poll) es in
      poll_loop status n (poll + 1) nents (poll_entry + more) kept
]

-- Where a copy ends: `submit failed`, or after the last round with the list and `poll` of then.
pub data End : Type 0 where
  submit_failed : List Desc → End
  finished : List Desc → List Entry → ℕ → End

-- The rounds, with `n` left, from round `loop` on.
pub rounds :
    Kernel → Wq → ℕ → ℕ → ℕ → List Seg → List Seg → List Entry → List Desc → ℕ → Outcome End
unfolding fill_entries submit_all poll_loop
rounds os wq total_ents zero loop dsts srcs es log poll = returns (finished log es poll)
rounds os wq total_ents (suc n) loop dsts srcs es log poll =
    let nents = chunk_size wq.num_descs (total_ents - loop * wq.num_descs) in
    fill_entries os wq nents (loop * wq.num_descs) dsts srcs >>= λ (new, dsts', srcs').
    submit_all os.refuses (es ++ new) log >>= λ (all, log'). elim all [
      | false ↦ returns (submit_failed log')
      | true ↦
          let (kept, poll') = poll_loop (os.status loop) poll_retry_max 0 nents 0 (es ++ new) in
          rounds os wq total_ents n (loop + 1) dsts' srcs' kept log' poll'
    ]

-- `dsa_copy`, on an empty list of descriptors: `srcs` and `dsts` are the mapped entries of `sgt1`
-- and `sgt2`. The table with one entry is a round of one descriptor.
pub dsa_copy : Kernel → Wq → List Seg → List Seg → Outcome End
unfolding rounds div_up first
dsa_copy os wq srcs dsts =
    let nents1 = length srcs in
    let nents2 = length dsts in
    let total_ents = if ltb nents2 nents1 then nents2 else nents1 in
    if ltb 1 nents1 && ltb 1 nents2
    then rounds os wq total_ents (div_up total_ents wq.num_descs) 0 dsts srcs [] [] 0
    else (first dsts >>= λ dst. first srcs >>= λ src.
        submit_all os.refuses (new_entry os wq 0 dst src ∷ []) [] >>= λ (all, log). elim all [
          | false ↦ returns (submit_failed log)
          | true ↦
              let (kept, poll) =
                poll_loop (os.status 0) poll_retry_max 0 1 0 (new_entry os wq 0 dst src ∷ []) in
              returns (finished log kept poll)
        ])

-- Tables without entries are read through NULL.
pub dsa_copy-nil : (os : Kernel) (wq : Wq) → dsa_copy os wq [] [] ≡ fault
unfolding dsa_copy first
dsa_copy-nil os wq = refl
