-- ===== src/Retry/Copied.antt =====
-- What rounds of one descriptor, each of which may end in a page fault, make of memory: the copies of
-- DSA_Userspace_Test/memmove_CPU_VS_DSA-userguide_ref-codes_TEST/memmove_userguide_ref.c and of
-- DSA_Kernelspace_Test/1.kernel_test/kernel_test_basecodes.c. The engine enters as `Effects`.
use dsa_test.Base.{ℕ, zero, suc, ◌+◌, ◌-◌, ◌≤◌, ◌<◌, ◌≡◌, ◌∙◌, ◌⊎◌, inl, inr, ap, arith, dec_lt}
use dsa_test.Desc.{HwDesc, comp_success, opcode_memmove}
use dsa_test.Engine.{Memory, Outside}
use dsa_test.Retry.{
  Attempt, moved, leave, again, op_status, page_fault_nobof, resume, judge, round, rounds,
}
use dsa_test.Retry.Resume.{Fits, completed, resume-IsRest, Next-cases, round-again}

-- A MEMMOVE between two ranges that are apart and do not wrap round the address space.
pub record Ready (hw : HwDesc) : Type 0 where
  pub memmove : hw.opcode ≡ opcode_memmove
  pub fits : Fits hw
  pub apart :
      (hw.src_addr + hw.xfer_size ≤ hw.dst_addr) ⊎ (hw.dst_addr + hw.xfer_size ≤ hw.src_addr)

-- What the engine does in round `k`, with what DSA documents of a record that it has written in this
-- round: behind a success the copy is made, behind a page fault the first `bytes_completed` bytes of it
-- are, and what else it has written lies in the destination.
pub record Effects (attempts : ℕ → Attempt) : Type 0 where
  pub run : ℕ → HwDesc → Memory → Memory
  pub success :
      (k : ℕ) (hw : HwDesc) (m : Memory) (i : ℕ)
      → Ready hw
      → (attempts k).comp.status ≡ comp_success
      → i < hw.xfer_size
      → run k hw m (hw.dst_addr + i) ≡ m (hw.src_addr + i)
  pub part :
      (k : ℕ) (hw : HwDesc) (m : Memory) (i : ℕ)
      → Ready hw
      → op_status (attempts k).comp.status ≡ page_fault_nobof
      → i < hw.xfer_size
      → i < (attempts k).comp.bytes_completed
      → run k hw m (hw.dst_addr + i) ≡ m (hw.src_addr + i)
  pub kept :
      (k : ℕ) (hw : HwDesc) (m : Memory) (a : ℕ)
      → Ready hw
      → Outside a hw.dst_addr hw.xfer_size
      → run k hw m a ≡ m a

-- `m'` is `m` after the copy that `hw` asks for.
pub record Copies (hw : HwDesc) (m m' : Memory) : Type 0 where
  pub copied : (i : ℕ) → i < hw.xfer_size → m' (hw.dst_addr + i) ≡ m (hw.src_addr + i)
  pub kept : (a : ℕ) → Outside a hw.dst_addr hw.xfer_size → m' a ≡ m a

module _ {attempts : ℕ → Attempt} (e : Effects attempts) (k : ℕ) (hw : HwDesc) (m : Memory) where
  pub success-Copies :
      Ready hw → (attempts k).comp.status ≡ comp_success → Copies hw m (e.run k hw m)
  success-Copies r s = record {
    copied = λ i h. e.success k hw m i r s h;
    kept = λ a h. e.kept k hw m a r h;
  }

  pub resume-Ready :
      Ready hw
      → (attempts k).comp.bytes_completed ≤ hw.xfer_size
      → Ready (resume hw (attempts k).comp)
  unfolding resume
  resume-Ready r h =
      let (rest, fits) = resume-IsRest hw (attempts k).comp r.fits h in
      record {
        memmove = r.memmove;
        fits = fits;
        apart = elim r.apart [ inl before ↦ inl (omega arith) | inr after ↦ inr (omega arith) ];
      }

  -- No byte of the source is written.
  source_kept :
      (i : ℕ) → Ready hw → i < hw.xfer_size → e.run k hw m (hw.src_addr + i) ≡ m (hw.src_addr + i)
  source_kept i r h = elim r.apart [
    | inl before ↦ e.kept k hw m (hw.src_addr + i) r (inl (omega arith))
    | inr after ↦ e.kept k hw m (hw.src_addr + i) r (inr (omega arith))
  ]

  pub resume-Copies :
      (m' : Memory)
      → Ready hw
      → op_status (attempts k).comp.status ≡ page_fault_nobof
      → (attempts k).comp.bytes_completed ≤ hw.xfer_size
      → Copies (resume hw (attempts k).comp) (e.run k hw m) m'
      → Copies hw m m'
  resume-Copies m' r f h c =
      let b = (attempts k).comp.bytes_completed in
      let hw' = resume hw (attempts k).comp in
      let rest = (resume-IsRest hw (attempts k).comp r.fits h).0 in
      let from = rest.src in
      let to = rest.dst in
      let size = rest.size in
      record {
        copied = λ i g. elim (dec_lt i b) [
          | yes p ↦ c.kept (hw.dst_addr + i) (inl (omega arith)) ∙ e.part k hw m i r f g p
          | no p ↦
              let at_dst : hw.dst_addr + i ≡ hw'.dst_addr + (i - b) = omega arith in
              let at_src : hw'.src_addr + (i - b) ≡ hw.src_addr + i = omega arith in
              ap m' at_dst
              ∙ c.copied (i - b) (omega arith)
              ∙ ap (e.run k hw m) at_src
              ∙ source_kept i r g
        ];
        kept = λ a g. elim g [
          | inl before ↦ c.kept a (inl (omega arith)) ∙ e.kept k hw m a r (inl before)
          | inr after ↦ c.kept a (inr (omega arith)) ∙ e.kept k hw m a r (inr after)
        ];
      }

-- What memory holds after the rounds of `Retry.rounds`.
pub memory_after :
    (enq_max poll_max : ℕ) {attempts : ℕ → Attempt} (e : Effects attempts)
    → ℕ
    → ℕ
    → HwDesc
    → Memory
    → Memory
memory_after enq_max poll_max e zero k hw m = m
memory_after enq_max poll_max {attempts} e (suc fuel) k hw m =
    elim (round enq_max poll_max (attempts k) hw) [
      | leave x ↦ e.run k hw m
      | again hw' ↦ memory_after enq_max poll_max e fuel (k + 1) hw' (e.run k hw m)
    ]

round-moved :
    (enq_max poll_max : ℕ) (a : Attempt) (hw : HwDesc)
    → round enq_max poll_max a hw ≡ leave moved
    → a.comp.status ≡ comp_success
unfolding round judge
round-moved enq_max poll_max a hw h = ground arith

-- When the rounds end with success, and no record claims more bytes than are asked for, then, however
-- many page faults there were, the destination holds what the source held, and nothing else changes.
pub rounds-Copies :
    (enq_max poll_max : ℕ) {attempts : ℕ → Attempt} (e : Effects attempts) (fuel k : ℕ)
    (hw : HwDesc) (m : Memory)
    → Ready hw
    → ((j : ℕ) → completed attempts k j ≤ hw.xfer_size)
    → (rounds enq_max poll_max attempts fuel k hw).0 ≡ moved
    → Copies hw m (memory_after enq_max poll_max e fuel k hw m)
unfolding rounds memory_after completed
rounds-Copies enq_max poll_max e zero k hw m r h success = absurd cc
rounds-Copies enq_max poll_max {attempts} e (suc fuel) k hw m r h success =
    elim (Next-cases (round enq_max poll_max (attempts k) hw)) [
      | inl (x, ran) ↦
          let ended : x ≡ moved = rw (ran, rounds) at success in
          rw (ran, memory_after)
            (success-Copies e k hw m r
              (round-moved enq_max poll_max (attempts k) hw (ran ∙ ap leave ended)))
      | inr (hw', ran) ↦
          let (same, faulted) = round-again enq_max poll_max (attempts k) hw ran in
          let asked : (attempts k).comp.bytes_completed ≤ hw.xfer_size = omega (arith, h 1) in
          let (rest, fits) = resume-IsRest hw (attempts k).comp r.fits asked in
          let size = rest.size in
          let run_on = rw (ran, rounds, same) at success in
          rw (ran, memory_after, same)
            (resume-Copies e k hw m _ r faulted asked (
              rounds-Copies enq_max poll_max e fuel (k + 1) (resume hw (attempts k).comp)
                (e.run k hw m) (resume-Ready e k hw m r asked) (λ j. omega (arith, h (suc j)))
                run_on))
    ]
