-- ===== src/Shuffle/Uniform.antt =====
-- Whatever numbers are drawn, `random_arr` lists every page once.
use dsa_test.Base.{
  ℕ, zero, suc, ◌+◌, ◌/◌, ◌%◌, ◌≤◌, ◌<◌, ◌≡◌, refl, ◌∙◌, ap, ◌&&◌, List, [], ◌∷◌, ◌++◌,
  append_assoc, arith, leb, ltb, ◌==◌, if◌then◌else◌, length, get_or, set, length-set,
  length-append,
}
use dsa_test.Shuffle.{fill, swap, mix, random_arr}

unfoldable pub one : ℕ → ℕ → ℕ
one a x = if x == a then 1 else 0

unfoldable pub count : ℕ → List ℕ → ℕ
count a [] = 0
count a (x ∷ xs) = one a x + count a xs

unfoldable pub range : ℕ → ℕ → List ℕ
range i zero = []
range i (suc n) = i ∷ range (i + 1) n

count-range : (a i n : ℕ) → count a (range i n) ≡ (if leb i a && ltb a (i + n) then 1 else 0)
unfolding count range one
count-range a i zero = ground arith
count-range a i (suc n) = ground (arith, count-range a (i + 1) n)

length-range : (i n : ℕ) → length (range i n) ≡ n
unfolding range
length-range i zero = refl
length-range i (suc n) = ap suc (length-range (i + 1) n)

set-append :
    (pre : List ℕ) (x v : ℕ) (suf : List ℕ) → set (pre ++ x ∷ suf) (length pre) v ≡ pre ++ v ∷ suf
set-append [] x v suf = refl
set-append (p ∷ pre) x v suf = ap (◌∷◌ p) (set-append pre x v suf)

-- The first loop leaves the numbers from 0 on, whatever the memory held.
fill-range :
    (n i : ℕ) (pre suf : List ℕ)
    → length pre ≡ i
    → length suf ≡ n
    → fill n i (pre ++ suf) ≡ pre ++ range i n
unfolding fill range
fill-range zero i pre [] hp hs = refl
fill-range zero i pre (x ∷ suf) hp hs = absurd (omega arith)
fill-range (suc n) i pre [] hp hs = absurd (omega arith)
fill-range (suc n) i pre (x ∷ suf) hp hs =
    rw (← hp, set-append pre x (length pre) suf, hp)
      (rw (← append_assoc pre (i ∷ []) suf) (
        fill-range n (i + 1) (pre ++ i ∷ []) suf (omega (arith, length-append pre (i ∷ [])))
          (omega arith)
        ∙ append_assoc pre (i ∷ []) (range (i + 1) n)))

-- A write takes one item out of the array and puts one in.
count-set :
    (a : ℕ) (xs : List ℕ) (i v : ℕ)
    → i < length xs
    → count a (set xs i v) + one a (get_or xs i 0) ≡ count a xs + one a v
unfolding count
count-set a [] i v h = absurd (omega arith)
count-set a (x ∷ xs) zero v h = omega arith
count-set a (x ∷ xs) (suc i) v h = omega (arith, count-set a xs i v (omega arith))

get_or-set :
    (xs : List ℕ) (i j v : ℕ)
    → i < length xs
    → get_or (set xs i v) j 0 ≡ (if i == j then v else get_or xs j 0)
get_or-set [] i j v h = absurd (omega arith)
get_or-set (x ∷ xs) zero zero v h = refl
get_or-set (x ∷ xs) zero (suc j) v h = ground arith
get_or-set (x ∷ xs) (suc i) zero v h = ground arith
get_or-set (x ∷ xs) (suc i) (suc j) v h = ground (arith, get_or-set xs i j v (omega arith))

count-swap :
    (a : ℕ) (xs : List ℕ) (i j : ℕ)
    → i < length xs
    → j < length xs
    → count a (swap xs i j) ≡ count a xs
unfolding swap
count-swap a xs i j hi hj = ground (
  arith,
  count-set a xs i (get_or xs j 0) hi,
  length-set xs i (get_or xs j 0),
  count-set a (set xs i (get_or xs j 0)) j (get_or xs i 0),
  get_or-set xs i j (get_or xs j 0) hi,
)

length-swap : (xs : List ℕ) (i j : ℕ) → length (swap xs i j) ≡ length xs
unfolding swap
length-swap xs i j = length-set (set xs i _) j _ ∙ length-set xs i _

module _ (draws : ℕ → ℕ) (npages : ℕ) where
  count-mix :
      (a n i : ℕ) (xs : List ℕ)
      → length xs ≡ npages
      → i + n ≤ npages
      → (count a (mix draws npages n i xs) ≡ count a xs)
        × (length (mix draws npages n i xs) ≡ npages)
  unfolding mix
  count-mix a zero i xs h b = (refl, h)
  count-mix a (suc n) i xs h b =
      let j = draws i / 2 % npages in
      let (c, l) = count-mix a n (i + 1) (swap xs i j) (length-swap xs i j ∙ h) (omega arith) in
      (c ∙ count-swap a xs i j (omega arith) (omega arith), l)

  -- The array holds each page below `npages` exactly once and nothing else, for any draws and
  -- whatever `kmalloc`'s memory of `npages` words held.
  pub random_arr-uniform :
      (arr : List ℕ)
      → length arr ≡ npages
      → (length (random_arr draws npages arr) ≡ npages)
        × ((a : ℕ) → count a (random_arr draws npages arr) ≡ (if ltb a npages then 1 else 0))
  unfolding random_arr
  random_arr-uniform arr h =
      let e : fill npages 0 arr ≡ range 0 npages = fill-range npages 0 [] arr refl h in
      let mixed =
        λ (a : ℕ). count-mix a npages 0 (range 0 npages) (length-range 0 npages) (omega arith) in
      rw e ((mixed 0).1, λ a. (mixed a).0 ∙ count-range a 0 npages ∙ ground arith)
