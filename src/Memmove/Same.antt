-- ===== src/Memmove/Same.antt =====
-- That the two programs of DSA_Userspace_Test/memmove_CPU_VS_DSA-userguide_ref-codes_TEST copy the
-- same, and what they report.
use dsa_test.Base.{
  ℕ, zero, suc, ◌+◌, ◌*◌, ◌%◌, ◌≤◌, ◌<◌, ◌^◌, ◌⊎◌, inl, inr, ◌≡◌, ◌≢◌, ◌∙◌, ◌↔◌, sym, refl, true,
  false, none, some, arith, ◌==◌, ==_iff,
}
use dsa_test.Desc.Batch.{Transfer}
use dsa_test.Engine.{Memory, Outside}
use dsa_test.Retry.{moved, op_status, page_fault_nobof}
use dsa_test.Retry.Resume.{completed}
use dsa_test.Retry.Copied.{Effects, Ready, Copies, rounds-Copies}
use dsa_test.Portal.{Setting, map_wq, rounds_of, memmove_desc, enq_retry_max, poll_retry_max}
use dsa_test.Portal.Outcomes.{main-code}
use dsa_test.Memmove.{Libc, npages, blen, fill_letters, memcmp, soft, dsa_memory, dsa}
use dsa_test.Memmove.Letters.{fill_letters_at}

memcmp-same :
    (m : Memory) (a b n : ℕ) → ((i : ℕ) → i < n → m (a + i) ≡ m (b + i)) → memcmp m a b n ≡ false
unfolding memcmp
memcmp-same m a b zero h = refl
memcmp-same m a b (suc n) h =
    let a0 : a + 0 ≡ a = omega arith in
    let b0 : b + 0 ≡ b = omega arith in
    let now : (m a == m b) ≡ true = (==_iff (m a) (m b)).1 (rw (a0, b0) at (h 0 (omega arith))) in
    let next = λ (i : ℕ) (e : m (a + suc i) ≡ m (b + suc i)).
      let ai : a + 1 + i ≡ a + suc i = omega arith in
      let bi : b + 1 + i ≡ b + suc i = omega arith in
      let r : m (a + 1 + i) ≡ m (b + 1 + i) = rw (ai, bi) e in r in
    rw now (memcmp-same m (a + 1) (b + 1) n (λ i u. next i (h (suc i) (omega arith))))

-- The two buffers are apart and do not wrap round the address space, and their length is an `int`.
pub record OnStack (s : Setting) (page : ℕ) : Type 0 where
  pub src : s.src + blen page < 2 ^ 64
  pub dst : s.dst + blen page < 2 ^ 64
  pub len : blen page < 2 ^ 31
  pub apart : (s.src + blen page ≤ s.dst) ⊎ (s.dst + blen page ≤ s.src)

OnStack-Ready :
    (s : Setting) (page : ℕ) → OnStack s page → Ready (memmove_desc (blen page) s.src s.dst s.comp)
unfolding memmove_desc
OnStack-Ready s page o = record {
  memmove = refl;
  fits = record { src = o.src; dst = o.dst; size = omega arith };
  apart = o.apart;
}

Outside-source :
    (s : Setting) (page i : ℕ)
    → OnStack s page
    → i < blen page
    → Outside (s.src + i) s.dst (blen page)
Outside-source s page i o h = elim o.apart [
  | inl before ↦ inl (omega arith)
  | inr after ↦ inr (omega arith)
]

module _ (s : Setting) (e : Effects s.attempts) (page fuel : ℕ) (m : Memory) (o : OnStack s page)
    (asked : (j : ℕ) → completed s.attempts 0 j ≤ blen page) where
  dsa-Copies :
      rounds_of s (blen page) fuel ≡ moved
      → Copies
          (memmove_desc (blen page) s.src s.dst s.comp)
          (fill_letters page s.src m)
          (dsa_memory s e page fuel m)
  unfolding dsa_memory memmove_desc
  dsa-Copies success =
      rounds-Copies enq_retry_max poll_retry_max e fuel 0
        (memmove_desc (blen page) s.src s.dst s.comp) (fill_letters page s.src m)
        (OnStack-Ready s page o) asked success

  dsa-copied :
      (i : ℕ)
      → rounds_of s (blen page) fuel ≡ moved
      → i < blen page
      → dsa_memory s e page fuel m (s.dst + i) ≡ fill_letters page s.src m (s.src + i)
  unfolding memmove_desc
  dsa-copied i success h = (dsa-Copies success).copied i h

  dsa-same :
      rounds_of s (blen page) fuel ≡ moved
      → memcmp (dsa_memory s e page fuel m) s.src s.dst (blen page) ≡ false
  unfolding memmove_desc
  dsa-same success = memcmp-same (dsa_memory s e page fuel m) s.src s.dst (blen page) (λ i h.
      (dsa-Copies success).kept (s.src + i) (Outside-source s page i o h)
      ∙ sym (dsa-copied i success h))

-- Both buffers are apart, the records together claim no more bytes than are asked for, and some round
-- `j` would report no page fault. Then `main` of memmove_userguide_ref.c ends within `j + 1` rounds, and its
-- exit code is 0 exactly when `map_wq` has mapped a portal and the rounds end with success of the
-- engine: `memcmp` then finds no difference, whatever the stack held.
pub dsa-code :
    (s : Setting) (e : Effects s.attempts) (page fuel j : ℕ) (m : Memory)
    → OnStack s page
    → ((j : ℕ) → completed s.attempts 0 j ≤ blen page)
    → j < fuel
    → op_status (s.attempts j).comp.status ≢ page_fault_nobof
    → (dsa s e page fuel m ≢ none)
      × ((dsa s e page fuel m ≡ some 0) ↔ (
          (map_wq (blen page) s.devices s.start s.opens s.mmap ≢ none)
          × (rounds_of s (blen page) fuel ≡ moved)))
unfolding dsa
dsa-code s e page fuel j m o asked h quiet =
    let found = memcmp (dsa_memory s e page fuel m) s.src s.dst (blen page) in
    let (ends, code) = main-code (record s { differs = found }) (blen page) fuel j h quiet in
    (
      ends,
      (
        λ exit. let (mapped, success, same) = code.0 exit in (mapped, success),
        λ (mapped, success). code.1 (mapped, success, dsa-same s e page fuel m o asked success),
      ),
    )

soft-same :
    (c : Libc) (s : Setting) (page : ℕ) (m : Memory)
    → OnStack s page
    → (soft c page s.src s.dst m).1 ≡ false
unfolding soft
soft-same c s page m o =
    let t : Transfer = record { src = s.src; dst = s.dst; len = blen page } in
    memcmp-same (c.memmove t (fill_letters page s.src m)) s.src s.dst (blen page) (λ i h.
      c.kept t (fill_letters page s.src m) (s.src + i) (Outside-source s page i o h)
      ∙ sym (c.moved t (fill_letters page s.src m) i h))

-- Both buffers are apart, and the records together claim no more bytes than are asked for. Where the rounds of
-- memmove_userguide_ref.c end with success of the engine, it leaves in `dst` what memmove_soft.c leaves
-- there, byte for byte; every page of it starts with the letter of its offset's last digit; and
-- memmove_soft.c finds no difference.
pub dsa-soft :
    (c : Libc) (s : Setting) (e : Effects s.attempts) (page fuel : ℕ) (m : Memory)
    → OnStack s page
    → ((j : ℕ) → completed s.attempts 0 j ≤ blen page)
    → rounds_of s (blen page) fuel ≡ moved
    → ((i : ℕ)
        → i < blen page
        → dsa_memory s e page fuel m (s.dst + i) ≡ (soft c page s.src s.dst m).0 (s.dst + i))
      × ((q : ℕ)
          → q < npages
          → 0 < page
          → dsa_memory s e page fuel m (s.dst + q * page) ≡ b'a' + q * page % 10)
      × ((soft c page s.src s.dst m).1 ≡ false)
unfolding soft
dsa-soft c s e page fuel m o asked success =
    let t : Transfer = record { src = s.src; dst = s.dst; len = blen page } in
    (
      λ i h.
          dsa-copied s e page fuel m o asked i success h
          ∙ sym (c.moved t (fill_letters page s.src m) i h),
      λ q h p.
          dsa-copied s e page fuel m o asked (q * page) success (grind arith)
          ∙ (fill_letters_at page s.src m p).0 q h,
      soft-same c s page m o,
    )
