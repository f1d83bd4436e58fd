-- ===== src/Shuffle/Entries.antt =====
-- What stands in the array of `random_arr`, from how often it stands there.
use dsa_test.Base.{
  ℕ, zero, suc, ◌+◌, ◌≤◌, ◌<◌, ◌≡◌, ◌≢◌, ◌==◌, Bool-cases, inl, inr, List, [], ◌∷◌, arith, length,
  get_or, Has, here, there,
}
use dsa_test.Shuffle.Uniform.{one, count, range}

pub Has-of_count : (a : ℕ) (xs : List ℕ) → 0 < count a xs → Has a xs
unfolding count one
Has-of_count a [] h = absurd (omega arith)
Has-of_count a (x ∷ xs) h = elim (Bool-cases (x == a)) [
  | inl same ↦ let e : x ≡ a = ground arith in rw e here
  | inr other ↦ there (Has-of_count a xs (ground arith))
]

pub count_pos : (a : ℕ) (xs : List ℕ) → Has a xs → 0 < count a xs
unfolding count one
count_pos a [] i = elim i [ ]
count_pos a (x ∷ xs) here = ground arith
count_pos a (x ∷ xs) (there i) = omega (arith, count_pos a xs i)

-- An entry that stands once is none of those after it.
pub count_once : (x a : ℕ) (xs : List ℕ) → count x (x ∷ xs) ≤ 1 → Has a xs → x ≢ a
unfolding count one
count_once x a xs h i same = ground (arith, count_pos a xs i)

pub get_or-Has : (xs : List ℕ) (k : ℕ) → k < length xs → Has (get_or xs k 0) xs
get_or-Has [] k h = absurd (omega arith)
get_or-Has (x ∷ xs) zero h = here
get_or-Has (x ∷ xs) (suc k) h = there (get_or-Has xs k (omega arith))

pub range-below : (k i n : ℕ) → Has k (range i n) → k < i + n
unfolding range
range-below k i zero h = elim h [ ]
range-below k i (suc n) here = omega arith
range-below k i (suc n) (there h) = omega (arith, range-below k (i + 1) n h)
