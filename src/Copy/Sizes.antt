-- ===== src/Copy/Sizes.antt =====
-- How many descriptors the batches of
-- DSA_Kernelspace_Test/1.kernel_test/kernel_test_sgtable_batch.c have.
use dsa_test.Base.{
  ℕ, zero, suc, ◌+◌, ◌-◌, ◌*◌, ◌/◌, ◌%◌, ◌≤◌, ◌<◌, ◌≡◌, refl, sym, subst, some, List, [], ◌∷◌, map,
  length, arith, returns, Has, here, there,
}
use dsa_test.Desc.{Desc, Wq, Seg, Grant, DescList, enabled}
use dsa_test.Copy.Cuts.{common, div_up-enough}
use dsa_test.Copy.Batches.{desc_count, cuts, batch_lists-ran}
use dsa_test.Copy.{div_up, batch_lists, chunk_size}

abbrev pub sum : List ℕ → ℕ
sum [] = 0
sum (n ∷ ns) = n + sum ns

cuts-sum : (max n left : ℕ) → left ≤ n * max → sum (cuts max n left) ≡ left
unfolding cuts
cuts-sum max zero left h = omega arith
cuts-sum max (suc n) left h =
    let now = chunk_size max left in
    let rest = cuts-sum max n (left - now) (ground arith) in
    let least : now ≤ left = ground arith in omega (arith, rest, least)

-- None is empty when one fewer would not do.
cuts-bounds :
    (max n left k : ℕ)
    → n * max < left + max
    → 0 < max
    → Has k (cuts max n left)
    → (0 < k) × (k ≤ max)
unfolding cuts
cuts-bounds max zero left k h sized i = elim i [ ]
cuts-bounds max (suc n) left k h sized here = (ground arith, ground arith)
cuts-bounds max (suc n) left k h sized (there i) =
    cuts-bounds max n (left - chunk_size max left) k (ground arith) sized i

cuts-one : (max q : ℕ) → 1 < max → Has 1 (cuts max (suc q) (q * max + 1))
unfolding cuts
cuts-one max zero h =
    let one : chunk_size max (0 * max + 1) ≡ 1 = ground arith in
    subst (λ k. Has 1 (k ∷ [])) (sym one) here
cuts-one max (suc q) h =
    let left : suc q * max + 1 - chunk_size max (suc q * max + 1) ≡ q * max + 1 = ground arith in
    there (subst (λ l. Has 1 (cuts max (suc q) l)) (sym left) (cuts-one max q h))

div_up-tight : (a b : ℕ) → 0 < b → 0 < a → div_up a b * b < a + b
unfolding div_up
div_up-tight a zero h g = absurd (omega arith)
div_up-tight a (suc b) h g = ground arith

div_up-one : (a b : ℕ) → 1 < b → a % b ≡ 1 → (a ≡ a / b * b + 1) × (div_up a b ≡ suc (a / b))
unfolding div_up
div_up-one a zero h g = absurd (omega arith)
div_up-one a (suc b) h g = (grind arith, ground arith)

Has-of_map :
    {A B : Type 0} (f : A → B) (xs : List A) {y : B}
    → Has y (map f xs)
    → (x : A) × Has x xs × (y ≡ f x)
Has-of_map f [] i = elim i [ ]
Has-of_map f (x ∷ xs) here = (x, here, refl)
Has-of_map f (x ∷ xs) (there i) = let (z, j, e) = Has-of_map f xs i in (z, there j, e)

Has-map : {A B : Type 0} (f : A → B) {x : A} {xs : List A} → Has x xs → Has (f x) (map f xs)
Has-map f here = here
Has-map f (there i) = there (Has-map f i)

cuts-rest : (max total : ℕ) → 1 < max → total % max ≡ 1 → Has 1 (cuts max (div_up total max) total)
cuts-rest max total many rest =
    let (split, n) = div_up-one total max many rest in
    subst (λ k. Has 1 (cuts max k total)) (sym n)
      (subst (λ t. Has 1 (cuts max (suc (total / max)) t)) (sym split)
        (cuts-one max (total / max) many))

-- On an enabled queue, when the driver gives a descriptor for every batch, the batches of two tables
-- of more than one entry have at least one descriptor each and no more than the device takes, and as
-- many together as the tables have entries in common.
pub batch_lists-sizes :
    (p : ℕ) (wq : Wq) (grants : ℕ → Grant)
    → wq.state ≡ enabled
    → ((i : ℕ) → (d : Desc) × ((grants i).alloc ≡ some d))
    → 0 < wq.idxd.max_batch_size
    → (srcs dsts : List Seg) → 1 < length srcs
    → 1 < length dsts
    → let max = wq.idxd.max_batch_size in
      let total = common (length srcs) (length dsts) in
      (ls : List DescList) × (batch_lists p wq grants (length srcs) (length dsts) srcs dsts
        ≡ returns ls)
      × ((l : DescList) → Has l ls → (0 < desc_count l) × (desc_count l ≤ max))
      × (sum (map desc_count ls) ≡ total)
batch_lists-sizes p wq grants on given sized srcs dsts h1 h2 =
    let max = wq.idxd.max_batch_size in
    let total = common (length srcs) (length dsts) in
    let (ls, ran, count, copies, new, sizes) =
      batch_lists-ran p wq grants on given sized srcs dsts h1 h2 in
    (
      ls,
      ran,
      λ l i.
          cuts-bounds max (div_up total max) total (desc_count l)
            (div_up-tight total max sized (ground arith)) sized
            (subst (Has (desc_count l)) sizes (Has-map desc_count i)),
      rw sizes (cuts-sum max (div_up total max) total (div_up-enough total max sized)),
    )

-- When the number of entries that both tables have leaves a rest of one, and the device takes more than
-- one in a batch, then, on an enabled queue and with the driver's descriptors, one of the batches has
-- a single descriptor.
pub batch_lists-batch_of_one :
    (p : ℕ) (wq : Wq) (grants : ℕ → Grant)
    → wq.state ≡ enabled
    → ((i : ℕ) → (d : Desc) × ((grants i).alloc ≡ some d))
    → 1 < wq.idxd.max_batch_size
    → (srcs dsts : List Seg) → 1 < length srcs
    → 1 < length dsts
    → common (length srcs) (length dsts) % wq.idxd.max_batch_size ≡ 1
    → (ls : List DescList) × (l : DescList) × (batch_lists p wq grants
          (length srcs)
          (length dsts)
          srcs
          dsts
        ≡ returns ls)
      × Has l ls
      × (desc_count l ≡ 1)
batch_lists-batch_of_one p wq grants on given many srcs dsts h1 h2 rest =
    let max = wq.idxd.max_batch_size in
    let total = common (length srcs) (length dsts) in
    let (ls, ran, count, copies, new, sizes) =
      batch_lists-ran p wq grants on given (omega arith) srcs dsts h1 h2 in
    let (l, i, one) =
      Has-of_map desc_count ls (subst (Has 1) (sym sizes) (cuts-rest max total many rest)) in
    (ls, l, ran, i, sym one)
