-- ===== src/Basecodes/Copied.antt =====
-- What `dsa_copy` of kernel_test_basecodes.c makes of memory, when the record that a round reads is of
-- this round.
use dsa_test.Base.{
  ℕ, zero, suc, ◌+◌, ◌*◌, ◌^◌, ◌≤◌, ◌<◌, ◌≡◌, ◌≢◌, ◌∙◌, ap, subst, arith, inl, inr, ◌⊎◌, refl, Bool,
  Option, some, returns,
}
use dsa_test.Desc.{Desc, Wq, comp_success, enabled}
use dsa_test.Desc.Flags.{submit_memcpy-some, submit_memcpy-given}
use dsa_test.Engine.{Memory}
use dsa_test.Retry.{Attempt, moved, unfinished, op_status, page_fault_nobof, resume}
use dsa_test.Retry.Resume.{completed, resume-IsRest}
use dsa_test.Retry.Copied.{Ready, Effects, Copies, success-Copies, resume-Ready, resume-Copies}
use dsa_test.Basecodes.{
  Retrying, leave, again, judge, round, rounds, dsa_copy, page_size, page_order, Report,
  poll_retry_max, fault_retry_max, submit_flags, idxd_desc_dma_submit_memcpy,
}
use dsa_test.Basecodes.Rounds.{Next-cases, dsa_copy-ends}

-- What memory holds after `rounds`.
pub memory_left :
    (poll_max fault_max : ℕ) {attempts : ℕ → Attempt} (e : Effects attempts)
    → ℕ
    → ℕ
    → Retrying
    → Memory
    → Memory
memory_left poll_max fault_max e zero k r m = m
memory_left poll_max fault_max {attempts} e (suc fuel) k r m =
    elim (round poll_max fault_max (attempts k) r) [
      | leave x r' ↦ e.run k r.hw m
      | again r' ↦ memory_left poll_max fault_max e fuel (k + 1) r' (e.run k r.hw m)
    ]

module _ (poll_max fault_max : ℕ) where
  round-moved :
      (a : Attempt) (r r' : Retrying)
      → round poll_max fault_max a r ≡ leave moved r'
      → a.comp.status ≡ comp_success
  unfolding round judge
  round-moved a r r' h = ground arith

  round-resume :
      (a : Attempt) (r r' : Retrying)
      → round poll_max fault_max a r ≡ again r'
      → (r'.hw ≡ resume r.hw a.comp) × (op_status a.comp.status ≡ page_fault_nobof)
  unfolding round judge
  round-resume a r r' h = ground arith

  -- When the rounds end with success, and the records claim no more bytes than are asked for, the
  -- destination holds what the source held.
  pub rounds-moved :
      {attempts : ℕ → Attempt} (e : Effects attempts) (fuel k : ℕ) (r : Retrying) (m : Memory)
      → Ready r.hw
      → ((j : ℕ) → completed attempts k j ≤ r.hw.xfer_size)
      → (rounds poll_max fault_max attempts fuel k r).0 ≡ moved
      → Copies r.hw m (memory_left poll_max fault_max e fuel k r m)
  unfolding rounds memory_left completed
  rounds-moved e zero k r m ready h success = absurd cc
  rounds-moved {attempts} e (suc fuel) k r m ready h success =
      elim (Next-cases (round poll_max fault_max (attempts k) r)) [
        | inl (x, r', ran) ↦
            let ended : x ≡ moved = rw (ran, rounds) at success in
            rw (ran, memory_left)
              (success-Copies e k r.hw m ready
                (round-moved (attempts k) r r' (ran ∙ ap (λ y. leave y r') ended)))
        | inr (r', ran) ↦
            let (same, faulted) = round-resume (attempts k) r r' ran in
            let asked : (attempts k).comp.bytes_completed ≤ r.hw.xfer_size = omega (arith, h 1) in
            let (rest, fits) = resume-IsRest r.hw (attempts k).comp ready.fits asked in
            let size : r'.hw.xfer_size + (attempts k).comp.bytes_completed ≡ r.hw.xfer_size =
              rw same rest.size in
            let run_on = rw (ran, rounds) at success in
            let next : Ready r'.hw = rw same (resume-Ready e k r.hw m ready asked) in
            let copied =
              rounds-moved e fuel (k + 1) r' (e.run k r.hw m) next (λ j. omega (arith, h (suc j)))
                run_on in
            let after = memory_left poll_max fault_max e fuel (k + 1) r' (e.run k r.hw m) in
            rw (ran, memory_left)
              (resume-Copies e k r.hw m after ready faulted asked
                (subst (λ hw. Copies hw (e.run k r.hw m) after) same copied))
      ]

-- The start of the rounds
abbrev pub start : Desc → Retrying
start d = record { poll = 0; faults = 0; hw = d.hw }

-- The descriptor of `dsa_copy`
abbrev pub submitted : ℕ → Wq → Option Desc → ℕ → ℕ → Option Desc
submitted p wq alloc dst1 src1 =
    idxd_desc_dma_submit_memcpy p wq alloc dst1 src1 (page_size * 2 ^ page_order) submit_flags

submitted-Ready :
    (p : ℕ) (wq : Wq) (alloc : Option Desc) (dst1 src1 : ℕ) {d : Desc}
    → wq.idxd.max_xfer_bytes < 2 ^ 32
    → src1 + page_size * 2 ^ page_order < 2 ^ 64
    → dst1 + page_size * 2 ^ page_order < 2 ^ 64
    → (src1 + page_size * 2 ^ page_order ≤ dst1) ⊎ (dst1 + page_size * 2 ^ page_order ≤ src1)
    → submitted p wq alloc dst1 src1 ≡ some d
    → Ready d.hw
submitted-Ready p wq alloc dst1 src1 {d} small src dst apart h =
    let (opcode, from, to, size, completion, bof, cache) =
      submit_memcpy-some p wq alloc dst1 src1 (page_size * 2 ^ page_order) submit_flags small h in
    record {
      memmove = opcode;
      fits = record { src = omega arith; dst = omega arith; size = omega arith };
      apart = elim apart [ inl before ↦ inl (omega arith) | inr after ↦ inr (omega arith) ];
    }

-- The two runs of pages, as the device sees them
pub record Runs (dst1 src1 : ℕ) : Type 0 where
  pub src : src1 + page_size * 2 ^ page_order < 2 ^ 64
  pub dst : dst1 + page_size * 2 ^ page_order < 2 ^ 64
  pub apart :
      (src1 + page_size * 2 ^ page_order ≤ dst1) ⊎ (dst1 + page_size * 2 ^ page_order ≤ src1)

-- What memory holds after `dsa_copy`, with the descriptor `d`
abbrev pub memory_of : {attempts : ℕ → Attempt} → Effects attempts → Desc → Memory → Memory
memory_of e d = memory_left poll_retry_max fault_retry_max e (suc fault_retry_max) 0 (start d)

module _ (p : ℕ) (wq : Wq) {attempts : ℕ → Attempt} (e : Effects attempts) (dst1 src1 : ℕ)
    (differs : Bool) (g : Desc) (m : Memory) where
  -- On an enabled queue that takes the length, with a descriptor from the driver, `dsa_copy` returns with
  -- the rounds of its descriptor.
  pub dsa_copy-returns :
      wq.state ≡ enabled
      → wq.idxd.max_xfer_bytes < 2 ^ 32
      → page_size * 2 ^ page_order ≤ wq.idxd.max_xfer_bytes
      → (d : Desc) × (submitted p wq (some g) dst1 src1 ≡ some d)
        × (r : Report) × (dsa_copy p (some wq) (some g) attempts dst1 src1 differs ≡ returns r)
        × (r.exit ≢ unfinished)
        × (r.exit
            ≡ (rounds poll_retry_max fault_retry_max attempts (suc fault_retry_max) 0 (start d)).0)
  unfolding dsa_copy
  dsa_copy-returns on small fits =
      let (d, given, same) =
        submit_memcpy-given p wq (some g) dst1 src1 (page_size * 2 ^ page_order) submit_flags on
          small refl fits in
      let ended =
        rounds poll_retry_max fault_retry_max attempts (suc fault_retry_max) 0 (start d) in
      let r : Report = record { exit = ended.0; last = ended.1; differs = differs } in
      let ran : dsa_copy p (some wq) (some g) attempts dst1 src1 differs ≡ returns r =
        rw given refl in
      (d, given, r, ran, dsa_copy-ends p (some wq) (some g) attempts dst1 src1 differs ran, refl)

  pub memory_of-copied :
      (d : Desc) (i : ℕ)
      → wq.idxd.max_xfer_bytes < 2 ^ 32
      → Runs dst1 src1
      → ((j : ℕ) → completed attempts 0 j ≤ page_size * 2 ^ page_order)
      → submitted p wq (some g) dst1 src1 ≡ some d
      → (rounds poll_retry_max fault_retry_max attempts (suc fault_retry_max) 0 (start d)).0 ≡ moved
      → i < page_size * 2 ^ page_order
      → memory_of e d m (dst1 + i) ≡ m (src1 + i)
  memory_of-copied d i small runs asked given success h =
      let (opcode, from, to, size, completion, bof, cache) =
        submit_memcpy-some p wq (some g) dst1 src1 (page_size * 2 ^ page_order) submit_flags small
          given in
      let ready =
        submitted-Ready p wq (some g) dst1 src1 small runs.src runs.dst runs.apart given in
      let c =
        rounds-moved poll_retry_max fault_retry_max e (suc fault_retry_max) 0 (start d) m ready
          (λ j. rw size (asked j)) success in
      let at_dst : dst1 + i ≡ d.hw.dst_addr + i = omega arith in
      let at_src : d.hw.src_addr + i ≡ src1 + i = omega arith in
      ap (memory_of e d m) at_dst ∙ c.copied i (rw size h) ∙ ap m at_src
