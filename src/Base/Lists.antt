-- ===== src/Base/Lists.antt =====
-- Lists measured by native numbers: length, occurrences, removal of the first occurrence.
use Prim.Native.Nat.{ℕ, zero, suc, ◌+◌, ◌≤◌}
use Prim.Native.String.{String}
use mathlib.Core.Path.{◌≡◌, refl}
use mathlib.Core.Logic.{inl, inr}
use mathlib.Core.Bool.{Bool, true, false, ◌&&◌, ◌||◌}
use mathlib.Core.Option.{Option, none, some}
use mathlib.Core.List.{List, [], ◌∷◌, ◌++◌}
use native.Mathlib.Omega.{arith}
use fairlead.Base.Tests.{
  Eq, ltb, nat_beq, ◌==◌, string_eq, if◌then◌else◌, string_beq_iff, Option-cases,
}

module _ {ℓ} {A : Type ℓ} where
  abbrev pub length : List A → ℕ
  length [] = 0
  length (x ∷ xs) = suc (length xs)

  pub length-append : (xs ys : List A) → length (xs ++ ys) ≡ length xs + length ys
  length-append [] ys = omega arith
  length-append (x ∷ xs) ys = omega (arith, length-append xs ys)

  -- `iter().any(test)`
  abbrev pub any : (A → Bool) → List A → Bool
  any test [] = false
  any test (x ∷ xs) = test x || any test xs

  -- `iter().find(test)`
  abbrev pub find : (A → Bool) → List A → Option A
  find test [] = none
  find test (x ∷ xs) = if test x then some x else find test xs

  -- `iter().filter(test)`
  abbrev pub filter : (A → Bool) → List A → List A
  filter test [] = []
  filter test (x ∷ xs) = let rest = filter test xs in if test x then x ∷ rest else rest

  abbrev pub is_empty : List A → Bool
  is_empty [] = true
  is_empty (x ∷ xs) = false

  -- The `n`-th element from 0, if it is there.
  abbrev pub get_elem? : List A → ℕ → Option A
  get_elem? [] i = none
  get_elem? (x ∷ xs) zero = some x
  get_elem? (x ∷ xs) (suc i) = get_elem? xs i

  -- `flat_map`, and `find_map`, which stops at the first value.
  abbrev pub flat_map {κ} : {B : Type κ} → (A → List B) → List A → List B
  flat_map f [] = []
  flat_map f (x ∷ xs) = f x ++ flat_map f xs

  abbrev pub find_map {κ} : {B : Type κ} → (A → Option B) → List A → Option B
  find_map f [] = none
  find_map f (x ∷ xs) = let rest = find_map f xs in elim (f x) [ none ↦ rest | some b ↦ some b ]

  -- A stable sort by a test for "not after".
  abbrev pub insert_by : (A → A → Bool) → A → List A → List A
  insert_by le x [] = x ∷ []
  insert_by le x (y ∷ ys) = if le x y then x ∷ y ∷ ys else y ∷ insert_by le x ys

  unfoldable pub sort_by : (A → A → Bool) → List A → List A
  sort_by le [] = []
  sort_by le (x ∷ xs) = insert_by le x (sort_by le xs)

  pub sort_by-nil : (le : A → A → Bool) → sort_by le [] ≡ []
  unfolding sort_by
  sort_by-nil le = refl

  pub sort_by-cons :
      (le : A → A → Bool) (x : A) (xs : List A)
      → sort_by le (x ∷ xs) ≡ insert_by le x (sort_by le xs)
  unfolding sort_by
  sort_by-cons le x xs = refl

  -- A property of every element.
  abbrev pub All {κ} : (A → Type κ) → List A → Type κ
  All P [] = Unit
  All P (x ∷ xs) = P x × All P xs

-- Lexicographic order on a first component and a test of the second.
abbrev pub lex_le : ℕ → ℕ → Bool → Bool
lex_le a b second = if ltb a b then true else nat_beq a b && second

module _ {ℓ} {A : Type ℓ} ⦃e : Eq A⦄ where
  -- `slice.contains(&a)`
  abbrev pub contains : List A → A → Bool
  contains [] a = false
  contains (x ∷ xs) a = (x == a) || contains xs a

  -- How often `a` occurs.
  abbrev pub count : A → List A → ℕ
  count a [] = 0
  count a (x ∷ xs) = let rest = count a xs in if x == a then suc rest else rest

  -- Drops the first occurrence.
  abbrev pub erase : A → List A → List A
  erase a [] = []
  erase a (x ∷ xs) = if x == a then xs else x ∷ erase a xs

  pub count-append : (a : A) (xs ys : List A) → count a (xs ++ ys) ≡ count a xs + count a ys
  count-append a [] ys = omega arith
  count-append a (x ∷ xs) ys = ground (arith, count-append a xs ys)

  pub contains-count : (a : A) (xs : List A) → contains xs a ≡ true → 1 ≤ count a xs
  contains-count a [] h = cc
  contains-count a (x ∷ xs) h = ground (arith, contains-count a xs)

  pub count_zero : (a : A) (xs : List A) → contains xs a ≡ false → count a xs ≡ 0
  count_zero a [] h = refl
  count_zero a (x ∷ xs) h = ground (arith, count_zero a xs)

  pub count_one : (a : A) (xs : List A) → count a xs ≡ 0 → contains xs a ≡ false
  count_one a [] h = refl
  count_one a (x ∷ xs) h = ground (arith, count_one a xs)

-- One occurrence fewer of `k`, and the same of any other text.
pub count-erase :
    (k j : String) (xs : List String)
    → count j (erase k xs) + (if contains xs k then (if k == j then 1 else 0) else 0) ≡ count j xs
count-erase k j [] = refl
count-erase k j (x ∷ xs) =
    ground (arith, count-erase k j xs, string_beq_iff x k, string_beq_iff x j, string_beq_iff k j)

pub count-filter :
    (k : String) (test : String → Bool) (xs : List String)
    → count k (filter test xs) ≡ (if test k then count k xs else 0)
count-filter k test [] = ground arith
count-filter k test (x ∷ xs) = ground (arith, count-filter k test xs, string_beq_iff x k)

pub All-append {ℓ κ} :
    {A : Type ℓ} (P : A → Type κ) (xs ys : List A) → All P xs → All P ys → All P (xs ++ ys)
All-append P [] ys hx hy = hy
All-append P (x ∷ xs) ys hx hy = (hx.0, All-append P xs ys hx.1 hy)

module _ {ℓ κ} {A : Type ℓ} {B : Type κ} (f : A → Option B) where
  -- What every value of `f` satisfies, the value that is found satisfies.
  pub find_map-sound {μ} :
      (P : B → Type μ)
      → ((a : A) (b : B) → f a ≡ some b → P b)
      → (xs : List A) (b : B) → find_map f xs ≡ some b
      → P b
  find_map-sound P good [] b h = cc
  find_map-sound P good (x ∷ xs) b h = elim (Option-cases (f x)) [
    | inl e ↦ find_map-sound P good xs b (ground arith)
    | inr (c, e) ↦ good x b (ground arith)
  ]
