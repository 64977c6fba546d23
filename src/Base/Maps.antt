-- ===== src/Base/Maps.antt =====
-- `HashMap<String, V>` as an association list. The program never relies on a map's order.
use fairlead.Base.Tests.{◌==◌, string_eq, if◌then◌else◌, string_beq_iff}
use Prim.Native.Nat.{ℕ, ◌+◌}
use Prim.Native.String.{String}
use mathlib.Core.Path.{◌≡◌, refl}
use mathlib.Core.Bool.{Bool, true, false}
use mathlib.Core.Option.{Option, none, some}
use mathlib.Core.List.{List, [], ◌∷◌}
use native.Mathlib.Omega.{arith}

abbrev pub HashMap {ℓ} : Type ℓ → Type ℓ
HashMap V = List (String × V)

module _ {ℓ} {V : Type ℓ} where
  unfoldable pub get : String → HashMap V → Option V
  get k [] = none
  get k ((j, v) ∷ m) = if j == k then some v else get k m

  -- Also a write through `get_mut`.
  unfoldable pub insert : String → V → HashMap V → HashMap V
  insert k v [] = (k, v) ∷ []
  insert k v ((j, w) ∷ m) = if j == k then (k, v) ∷ m else (j, w) ∷ insert k v m

  unfoldable pub remove : String → HashMap V → HashMap V
  remove k [] = []
  remove k ((j, w) ∷ m) = let rest = remove k m in if j == k then rest else (j, w) ∷ rest

  abbrev pub is_some : Option V → Bool
  is_some none = false
  is_some (some v) = true

  pub is_some-some : (o : Option V) → is_some o ≡ true → (v : V) × (o ≡ some v)
  is_some-some none h = cc
  is_some-some (some v) h = (v, refl)

  unfoldable pub contains_key : HashMap V → String → Bool
  unfolding get
  contains_key m k = is_some (get k m)

  unfoldable pub values : HashMap V → List V
  values [] = []
  values ((k, v) ∷ m) = v ∷ values m

  pub get-insert :
      (k j : String) (v : V) (m : HashMap V)
      → get j (insert k v m) ≡ (if k == j then some v else get j m)
  unfolding get insert
  get-insert k j v [] = refl
  get-insert k j v ((i, w) ∷ m) =
      ground (arith, string_beq_iff k j, string_beq_iff i k, string_beq_iff i j, get-insert k j v m)

  pub get-remove :
      (k j : String) (m : HashMap V) → get j (remove k m) ≡ (if k == j then none else get j m)
  unfolding get remove
  get-remove k j [] = ground arith
  get-remove k j ((i, w) ∷ m) =
      ground (arith, string_beq_iff k j, string_beq_iff i k, string_beq_iff i j, get-remove k j m)

  -- No key occurs twice.
  abbrev pub Unique : HashMap V → Type ℓ
  Unique [] = Unit
  Unique ((k, v) ∷ m) = (get k m ≡ none) × Unique m

  -- A number for each value, added up.
  unfoldable pub total : (V → ℕ) → HashMap V → ℕ
  total f [] = 0
  total f ((k, v) ∷ m) = f v + total f m

  abbrev pub weight : (V → ℕ) → Option V → ℕ
  weight f none = 0
  weight f (some v) = f v

  pub insert-Unique : (k : String) (v : V) (m : HashMap V) → Unique m → Unique (insert k v m)
  unfolding get insert
  insert-Unique k v [] u = (refl, tt)
  insert-Unique k v ((j, w) ∷ m) u =
      ground
        (arith, string_beq_iff j k, string_beq_iff k j, insert-Unique k v m u.1, get-insert k j v m)

  pub remove-Unique : (k : String) (m : HashMap V) → Unique m → Unique (remove k m)
  unfolding get remove
  remove-Unique k [] u = tt
  remove-Unique k ((j, w) ∷ m) u =
      ground
        (arith, string_beq_iff j k, string_beq_iff k j, remove-Unique k m u.1, get-remove k j m)

  pub total-insert :
      (f : V → ℕ) (k : String) (v : V) (m : HashMap V)
      → total f (insert k v m) + weight f (get k m) ≡ total f m + f v
  unfolding get insert total
  total-insert f k v [] = omega arith
  total-insert f k v ((j, w) ∷ m) = ground (arith, total-insert f k v m)

  remove_absent :
      (f : V → ℕ) (k : String) (m : HashMap V) → get k m ≡ none → total f (remove k m) ≡ total f m
  unfolding get remove total
  remove_absent f k [] h = refl
  remove_absent f k ((j, w) ∷ m) h = ground (arith, remove_absent f k m)

  pub total-remove :
      (f : V → ℕ) (k : String) (m : HashMap V)
      → Unique m
      → total f (remove k m) + weight f (get k m) ≡ total f m
  unfolding get remove total
  total-remove f k [] u = omega arith
  total-remove f k ((j, w) ∷ m) u =
      ground (arith, total-remove f k m u.1, remove_absent f k m, string_beq_iff j k)
