-- ===== src/Memmove.antt =====
-- The programs memmove_userguide_ref.c and memmove_soft.c of
-- DSA_Userspace_Test/memmove_CPU_VS_DSA-userguide_ref-codes_TEST with their memory: the letters that
-- both write to their source, the copy, and `memcmp`.
--
-- `page` is what `getpagesize` returns. `src` and `dst` are on the stack, not initialised: what memory
-- holds at the start is an argument. The descriptor's copy is that of `Retry.Copied`, and the search
-- for a queue and the exit code are those of `Portal.main`, whose `memcmp` gets its result here.
pub mod Letters
pub mod Same
mod Examples
use dsa_test.Base.{
  ℕ, zero, suc, ◌+◌, ◌*◌, ◌%◌, ◌<◌, ◌≡◌, Bool, true, false, Option, none, some, List, [], ◌∷◌,
  get_elem?, ltb, ◌==◌, if◌then◌else◌,
}
use dsa_test.Desc.Batch.{Transfer}
use dsa_test.Engine.{Memory, Outside}
use dsa_test.Retry.Copied.{Effects, memory_after}
use dsa_test.Portal
use dsa_test.Portal.{Setting, enq_retry_max, poll_retry_max, memmove_desc}

-- `NPAGES` of memmove.h, and `BLEN`
abbrev pub npages : ℕ
npages = 1024

abbrev pub blen : ℕ → ℕ
blen page = npages * page

-- The cases of `switch (i % 10)`
abbrev pub letters : List ℕ
letters = b'a' ∷ b'b' ∷ b'c' ∷ b'd' ∷ b'e' ∷ b'f' ∷ b'g' ∷ b'h' ∷ b'i' ∷ b'j' ∷ []

pub store : Memory → ℕ → ℕ → Memory
store m a v b = if b == a then v else m b

-- The `switch`: without a case nothing is written.
pub write_letter : ℕ → ℕ → Memory → Memory
unfolding store
write_letter src i m = elim (get_elem? letters (i % 10)) [ none ↦ m | some c ↦ store m (src + i) c ]

-- `for (int i = 0; i < BLEN; i += getpagesize())`, from `i` on
pub fill_from : ℕ → ℕ → ℕ → ℕ → ℕ → Memory → Memory
unfolding write_letter
fill_from page len src zero i m = m
fill_from page len src (suc fuel) i m =
    let rest = fill_from page len src fuel (i + page) (write_letter src i m) in
    if ltb i len then rest else m

-- The loop makes one round for each page.
pub fill_letters : ℕ → ℕ → Memory → Memory
unfolding fill_from
fill_letters page src m = fill_from page (blen page) src (suc npages) 0 m

-- `memcmp(a, b, n) != 0`
pub memcmp : Memory → ℕ → ℕ → ℕ → Bool
memcmp m a b zero = false
memcmp m a b (suc n) = if m a == m b then memcmp m (a + 1) (b + 1) n else true

-- `memmove` of the C library, with what it documents
pub record Libc : Type 0 where
  pub memmove : Transfer → Memory → Memory
  pub moved :
      (t : Transfer) (m : Memory) (i : ℕ) → i < t.len → memmove t m (t.dst + i) ≡ m (t.src + i)
  pub kept : (t : Transfer) (m : Memory) (a : ℕ) → Outside a t.dst t.len → memmove t m a ≡ m a

-- What `main` of memmove_soft.c leaves in memory, whether it prints `memmove failed`, and its exit code.
pub soft : Libc → ℕ → ℕ → ℕ → Memory → Memory × Bool × ℕ
unfolding fill_letters memcmp
soft c page src dst m =
    let copied =
      c.memmove (record { src = src; dst = dst; len = blen page }) (fill_letters page src m) in
    (copied, memcmp copied src dst (blen page), 0)

module _ (s : Setting) (e : Effects s.attempts) (page fuel : ℕ) (m : Memory) where
  -- What `main` of memmove_userguide_ref.c leaves in memory, once `map_wq` has found a queue.
  pub dsa_memory : Memory
  unfolding fill_letters
  dsa_memory =
      memory_after enq_retry_max poll_retry_max e fuel 0
        (memmove_desc (blen page) s.src s.dst s.comp) (fill_letters page s.src m)

  -- Its exit code
  pub dsa : Option ℕ
  unfolding dsa_memory memcmp
  dsa =
      Portal.main (record s { differs = memcmp dsa_memory s.src s.dst (blen page) }) (blen page)
        fuel
