-- ===== src/Base/Lists.antt =====
-- Arrays and chains as lists with native indices.
use Prim.Native.Nat.{ℕ, zero, suc, ◌+◌, ◌-◌, ◌*◌, ◌≤◌, ◌<◌, min}
use mathlib.Core.Path.{◌≡◌, refl, sym, ap, ◌∙◌}
use mathlib.Core.List.{List, [], ◌∷◌, ◌++◌, map}
use mathlib.Core.Option.{Option, none, some}
use native.Mathlib.Omega.{arith}
use dsa_test.Base.Tests.{◌==◌, if◌then◌else◌}

module _ {ℓ} {A : Type ℓ} where
  abbrev pub length : List A → ℕ
  length [] = 0
  length (x ∷ xs) = suc (length xs)

  abbrev pub get_elem? : List A → ℕ → Option A
  get_elem? [] i = none
  get_elem? (x ∷ xs) zero = some x
  get_elem? (x ∷ xs) (suc i) = get_elem? xs i

  abbrev pub get_or : List A → ℕ → A → A
  get_or [] i d = d
  get_or (x ∷ xs) zero d = x
  get_or (x ∷ xs) (suc i) d = get_or xs i d

  -- A write out of bounds changes nothing.
  abbrev pub set : List A → ℕ → A → List A
  set [] i v = []
  set (x ∷ xs) zero v = v ∷ xs
  set (x ∷ xs) (suc i) v = x ∷ set xs i v

  abbrev pub take : ℕ → List A → List A
  take zero xs = []
  take (suc n) [] = []
  take (suc n) (x ∷ xs) = x ∷ take n xs

  abbrev pub drop : ℕ → List A → List A
  drop zero xs = xs
  drop (suc n) [] = []
  drop (suc n) (x ∷ xs) = drop n xs

module _ {ℓ} {A : Type ℓ} where
  pub length-append : (xs ys : List A) → length (xs ++ ys) ≡ length xs + length ys
  length-append [] ys = omega arith
  length-append (x ∷ xs) ys = omega (arith, length-append xs ys)

  pub length-set : (xs : List A) (i : ℕ) (v : A) → length (set xs i v) ≡ length xs
  length-set [] i v = refl
  length-set (x ∷ xs) zero v = refl
  length-set (x ∷ xs) (suc i) v = ap suc (length-set xs i v)

  pub length-take : (n : ℕ) (xs : List A) → length (take n xs) ≡ min n (length xs)
  length-take zero xs = omega arith
  length-take (suc n) [] = omega arith
  length-take (suc n) (x ∷ xs) = omega (arith, length-take n xs)

  pub length-drop : (n : ℕ) (xs : List A) → length (drop n xs) ≡ length xs - n
  length-drop zero xs = omega arith
  length-drop (suc n) [] = omega arith
  length-drop (suc n) (x ∷ xs) = omega (arith, length-drop n xs)

  pub take-append-drop : (n : ℕ) (xs : List A) → take n xs ++ drop n xs ≡ xs
  take-append-drop zero xs = refl
  take-append-drop (suc n) [] = refl
  take-append-drop (suc n) (x ∷ xs) = ap (◌∷◌ x) (take-append-drop n xs)

  pub take_all : (n : ℕ) (xs : List A) → length xs ≤ n → take n xs ≡ xs
  take_all zero [] h = refl
  take_all zero (x ∷ xs) h = absurd (omega arith)
  take_all (suc n) [] h = refl
  take_all (suc n) (x ∷ xs) h = ap (◌∷◌ x) (take_all n xs (omega arith))

module _ {ℓ} {A : Type ℓ} where
  pub drop-of_length_le : (k : ℕ) (xs : List A) → length xs ≤ k → drop k xs ≡ []
  drop-of_length_le zero [] h = refl
  drop-of_length_le zero (x ∷ xs) h = absurd (omega arith)
  drop-of_length_le (suc k) [] h = refl
  drop-of_length_le (suc k) (x ∷ xs) h = drop-of_length_le k xs (omega arith)

  pub drop-cons :
      (k : ℕ) (d : A) (xs : List A) → k < length xs → drop k xs ≡ get_or xs k d ∷ drop (k + 1) xs
  drop-cons k d [] h = absurd (omega arith)
  drop-cons zero d (x ∷ xs) h = refl
  drop-cons (suc k) d (x ∷ xs) h =
      let e : suc (k + 1) ≡ suc k + 1 = omega arith in
      drop-cons k d xs (omega arith) ∙ ap (λ t. get_or xs k d ∷ drop t (x ∷ xs)) e

  pub drop-add : (k m : ℕ) (xs : List A) → drop (k + m) xs ≡ drop m (drop k xs)
  drop-add zero m xs = ap (λ t. drop t xs) (omega arith)
  drop-add (suc k) m [] =
      drop-of_length_le (suc k + m) [] (omega arith) ∙ sym (drop-of_length_le m [] (omega arith))
  drop-add (suc k) m (x ∷ xs) =
      let e : suc k + m ≡ suc (k + m) = omega arith in ap (λ t. drop t (x ∷ xs)) e ∙ drop-add k m xs

  pub drop-length-take : (n : ℕ) (xs : List A) → drop (length (take n xs)) xs ≡ drop n xs
  drop-length-take zero xs = refl
  drop-length-take (suc n) [] = refl
  drop-length-take (suc n) (x ∷ xs) = drop-length-take n xs

  -- `w` slices of `n` items
  abbrev pub slices : ℕ → ℕ → List A → List (List A)
  slices zero n xs = []
  slices (suc w) n xs = take n xs ∷ slices w n (drop n xs)

  abbrev pub concat : List (List A) → List A
  concat [] = []
  concat (xs ∷ xss) = xs ++ concat xss

  pub concat-slices : (w n : ℕ) (xs : List A) → length xs ≤ w * n → concat (slices w n xs) ≡ xs
  concat-slices zero n [] h = refl
  concat-slices zero n (x ∷ xs) h = absurd (omega arith)
  concat-slices (suc w) n xs h =
      rw (concat-slices w n (drop n xs) (omega (arith, length-drop n xs))) (take-append-drop n xs)

  pub length-map {κ} : {B : Type κ} (f : A → B) (xs : List A) → length (map f xs) ≡ length xs
  length-map f [] = refl
  length-map f (x ∷ xs) = ap suc (length-map f xs)

pub take_nil {ℓ} : {A : Type ℓ} (n : ℕ) → take {A = A} n [] ≡ []
take_nil zero = refl
take_nil (suc n) = refl

-- Where an element stands in a list.
pub data Has {ℓ} {A : Type ℓ} (a : A) : List A → Type ℓ where
  here : {xs : List A} → Has a (a ∷ xs)
  there : {x : A} {xs : List A} → Has a xs → Has a (x ∷ xs)

pub Has-append_left {ℓ} :
    {A : Type ℓ} {a : A} {xs : List A} (ys : List A) → Has a xs → Has a (xs ++ ys)
Has-append_left ys here = here
Has-append_left ys (there m) = there (Has-append_left ys m)

-- How often a number stands in a list.
abbrev pub times : List ℕ → ℕ → ℕ
times [] a = 0
times (b ∷ bs) a = if b == a then times bs a + 1 else times bs a

pub times-append : (a : ℕ) (bs cs : List ℕ) → times (bs ++ cs) a ≡ times bs a + times cs a
times-append a [] cs = omega arith
times-append a (b ∷ bs) cs = ground (arith, times-append a bs cs)
