-- ===== src/Shuffle/Examples.antt =====
-- A run of `random_arr`.
use dsa_test.Base.{ℕ, ◌≡◌, refl, [], ◌∷◌, length, ltb, ◌+◌, if◌then◌else◌}
use dsa_test.Shuffle.{random_arr}
use dsa_test.Shuffle.Uniform.{count, random_arr-uniform}

random_arr-uniform_example :
    (length (random_arr (λ i. 7 + i) 3 (9 ∷ 9 ∷ 9 ∷ [])) ≡ 3)
    × ((a : ℕ) → count a (random_arr (λ i. 7 + i) 3 (9 ∷ 9 ∷ 9 ∷ [])) ≡ (if ltb a 3 then 1 else 0))
random_arr-uniform_example = random_arr-uniform (λ i. 7 + i) 3 (9 ∷ 9 ∷ 9 ∷ []) refl
