-- ===== src/Memmove/Letters.antt =====
-- The letters that the programs of
-- DSA_Userspace_Test/memmove_CPU_VS_DSA-userguide_ref-codes_TEST write to their source.
use dsa_test.Base.{
  ℕ, zero, suc, ◌+◌, ◌*◌, ◌%◌, ◌≤◌, ◌<◌, ◌≡◌, ◌≢◌, ◌∙◌, refl, true, some, get_elem?, ltb, arith,
  lt→ltb, ltb→lt, Bool-cases, inl, inr,
}
use dsa_test.Engine.{Memory}
use dsa_test.Memmove.{npages, blen, letters, store, write_letter, fill_from, fill_letters}

-- Each remainder has its letter.
letters_at : (r : ℕ) → r < 10 → get_elem? letters r ≡ some (b'a' + r)
letters_at r h = ground arith

write_letter_self : (src i : ℕ) (m : Memory) → write_letter src i m (src + i) ≡ b'a' + i % 10
unfolding write_letter store
write_letter_self src i m = rw (letters_at (i % 10) (omega arith), write_letter) (ground arith)

write_letter_other : (src i a : ℕ) (m : Memory) → a ≢ src + i → write_letter src i m a ≡ m a
unfolding write_letter store
write_letter_other src i a m h = rw (letters_at (i % 10) (omega arith), write_letter) (ground arith)

module _ (page len src : ℕ) where
  -- An address that no round writes to keeps its byte.
  fill_from_other :
      (fuel i a : ℕ) (m : Memory)
      → ((q : ℕ) → i + q * page < len → a ≢ src + (i + q * page))
      → fill_from page len src fuel i m a ≡ m a
  unfolding fill_from
  fill_from_other zero i a m h = refl
  fill_from_other (suc fuel) i a m h =
      let start : i + 0 * page ≡ i = omega arith in
      let now : i < len → a ≢ src + i = λ u. rw start at (h 0 (rw start u)) in
      elim (Bool-cases (ltb i len)) [
        | inr over ↦ rw over refl
        | inl more ↦ rw more (
            fill_from_other fuel (i + page) a (write_letter src i m) (λ q u.
              let e : i + page + q * page ≡ i + suc q * page = grind arith in
              rw e (h (suc q) (rw e at u)))
            ∙ write_letter_other src i a m (now (ltb→lt i len more)))
      ]

  -- A round writes its letter, and the later rounds are on later pages.
  fill_from_at :
      (fuel q i : ℕ) (m : Memory)
      → 0 < page
      → i + q * page < len
      → len ≤ i + fuel * page
      → fill_from page len src fuel i m (src + (i + q * page)) ≡ b'a' + (i + q * page) % 10
  unfolding fill_from
  fill_from_at zero q i m p u h = absurd (omega arith)
  fill_from_at (suc fuel) zero i m p u h =
      let start : i + 0 * page ≡ i = omega arith in
      let more : ltb i len ≡ true = lt→ltb i len (omega arith) in
      rw (start, more)
        (fill_from_other fuel (i + page) (src + i) (write_letter src i m) (λ q v e. omega arith)
          ∙ write_letter_self src i m)
  fill_from_at (suc fuel) (suc q) i m p u h =
      let next : i + suc q * page ≡ i + page + q * page = grind arith in
      let more : ltb i len ≡ true = lt→ltb i len (omega arith) in
      rw (next, more)
        (fill_from_at fuel q (i + page) (write_letter src i m) p (rw next at u) (grind arith))

-- The first byte of every page of the source is the letter of its offset's last digit, and no other
-- byte is written.
pub fill_letters_at :
    (page src : ℕ) (m : Memory)
    → 0 < page
    → ((q : ℕ) → q < npages → fill_letters page src m (src + q * page) ≡ b'a' + q * page % 10)
      × ((a : ℕ) → ((q : ℕ) → q < npages → a ≢ src + q * page) → fill_letters page src m a ≡ m a)
unfolding fill_letters
fill_letters_at page src m p = (
  λ q h.
      let e : 0 + q * page ≡ q * page = omega arith in
      rw e at (fill_from_at page (blen page) src (suc npages) q 0 m p (grind arith) (grind arith)),
  λ a h.
      fill_from_other page (blen page) src (suc npages) 0 a m
        (λ q u. let e : 0 + q * page ≡ q * page = omega arith in rw e (h q (grind arith))),
)
