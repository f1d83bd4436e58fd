-- ===== src/Copy/Cuts.antt =====
-- How the single-queue tests cut a number of entries into rounds or batches.
use dsa_test.Base.{ℕ, zero, suc, ◌+◌, ◌-◌, ◌*◌, ◌≤◌, ◌<◌, ◌≡◌, ◌≢◌, ltb, if◌then◌else◌, arith}
use dsa_test.Copy.{div_up, chunk_size}

pub chunk_size-add :
    (max total i : ℕ) → chunk_size max (total - i * max) + (total - (i + 1) * max) ≡ total - i * max
chunk_size-add max total i = ground arith

pub div_up-enough : (a b : ℕ) → 0 < b → a ≤ div_up a b * b
unfolding div_up
div_up-enough a zero h = absurd (omega arith)
div_up-enough a (suc b) h = ground arith

pos_factor : (a k b : ℕ) → 0 < a → a ≤ k * b → 0 < k
pos_factor a zero b h g = absurd (omega arith)
pos_factor a (suc k) b h g = omega arith

pub div_up_pos : (a b : ℕ) → 0 < a → 0 < b → 0 < div_up a b
div_up_pos a b h g = pos_factor a (div_up a b) b h (div_up-enough a b g)

mul_le : (m n k : ℕ) → m ≤ n → m * k ≤ n * k
mul_le zero n k h = omega arith
mul_le (suc m) zero k h = absurd (omega arith)
mul_le (suc m) (suc n) k h = omega (arith, mul_le m n k (omega arith))

-- Nothing is left after as many batches as are enough.
pub none_left : (a b n c : ℕ) → a ≤ n * b → n ≤ c → a - c * b ≡ 0
none_left a b n c h g = omega (arith, mul_le n c b g)

-- How many entries the two tables of a copy have in common.
abbrev pub common : ℕ → ℕ → ℕ
common nents1 nents2 = if ltb nents2 nents1 then nents2 else nents1

-- No batch has a single entry.
abbrev pub NoSingle : ℕ → ℕ → Type 0
NoSingle total max = (i : ℕ) → chunk_size max (total - i * max) ≢ 1

pub common-fits : (m n : ℕ) → (common m n ≤ m) × (common m n ≤ n)
common-fits m n = (ground arith, ground arith)
