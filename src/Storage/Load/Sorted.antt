-- ===== src/Storage/Load/Sorted.antt =====
-- A sort of distinct entries is the only ordered list of them.
use fairlead.Base.{
  Bool, true, false, String, List, [], ◌∷◌, ◌==◌, ◌≡◌, ◌⊎◌, ◌∙◌, refl, sym, ap, subst, map, filter,
  contains, All, string_eq, string_beq_iff, insert_by, sort_by, sort_by-nil, sort_by-cons,
  Bool-cases, inl, inr, arith,
}

module _ {A : Type 0} (le : A → A → Bool) (name : A → String) where
  -- `t` comes before `u`, and is another entry.
  pub record Before (t u : A) : Type 0 where
    pub first : le t u ≡ true
    pub not_after : le u t ≡ false
    pub other : (name t == name u) ≡ false

  abbrev pub Ordered : List A → Type 0
  Ordered [] = Unit
  Ordered (t ∷ ts) = All (Before t) ts × Ordered ts

  abbrev pub Listed : A → List A → Type 0
  Listed x [] = ⊥
  Listed x (t ∷ ts) = (t ≡ x) ⊎ Listed x ts

  abbrev names : List A → List String
  names xs = map name xs

  -- The entries of an ordered list that are named by another list.
  abbrev pick : List A → List A → List A
  pick xs ts = filter (λ t. contains (map name xs) (name t)) ts

  insert-first : (x : A) (ts : List A) → All (Before x) ts → insert_by le x ts ≡ x ∷ ts
  insert-first x [] all = refl
  insert-first x (t ∷ ts) all = ground (arith, all.0.first)

  filter-All : (P : A → Type 0) (test : A → Bool) (ts : List A) → All P ts → All P (filter test ts)
  filter-All P test [] all = tt
  filter-All P test (t ∷ ts) all = elim (Bool-cases (test t)) [
    | inl yes_ ↦ rw yes_ (all.0, filter-All P test ts all.1)
    | inr no_ ↦ rw no_ (filter-All P test ts all.1)
  ]

  Listed-All : (P : A → Type 0) (x : A) (ts : List A) → All P ts → Listed x ts → P x
  Listed-All P x [] all h = absurd h
  Listed-All P x (t ∷ ts) all (inl e) = subst P e all.0
  Listed-All P x (t ∷ ts) all (inr h) = Listed-All P x ts all.1 h

  -- Without an entry of the same name, one more name picks nothing more.
  pick-other : (x : A) (xs ts : List A) → All (Before x) ts → pick (x ∷ xs) ts ≡ pick xs ts
  pick-other x xs [] all = refl
  pick-other x xs (t ∷ ts) all = ground (arith, pick-other x xs ts all.1, all.0.other)

  nothing : (ts : List A) → pick [] ts ≡ []
  nothing [] = refl
  nothing (t ∷ ts) = nothing ts

  insert-pick :
      (x : A) (xs ts : List A)
      → Ordered ts
      → Listed x ts
      → contains (names xs) (name x) ≡ false
      → insert_by le x (pick xs ts) ≡ pick (x ∷ xs) ts
  insert-pick x xs [] ordered h new_ = absurd h
  insert-pick x xs (t ∷ ts) ordered (inl e) new_ =
      let all = subst (λ y. All (Before y) ts) e ordered.0 in
      let named : (name x == name x) ≡ true = (string_beq_iff (name x) (name x)).1 refl in
      let new_t : contains (names xs) (name t) ≡ false =
        subst (λ y. contains (names xs) (name y) ≡ false) (sym e) new_ in
      let named_t : (name x == name t) ≡ true =
        subst (λ y. (name x == name y) ≡ true) (sym e) named in
      let left : pick xs (t ∷ ts) ≡ pick xs ts = rw new_t refl in
      let right : pick (x ∷ xs) (t ∷ ts) ≡ x ∷ pick xs ts =
        rw named_t
          (ap (λ y. y ∷ pick (x ∷ xs) ts) e ∙ ap (λ zs. x ∷ zs) (pick-other x xs ts all)) in
      ap (insert_by le x) left
      ∙ insert-first x (pick xs ts) (filter-All (Before x) _ ts all)
      ∙ sym right
  insert-pick x xs (t ∷ ts) ordered (inr h) new_ =
      let before = Listed-All (Before t) x ts ordered.0 h in
      let rest = insert-pick x xs ts ordered.1 h new_ in
      let other : (name x == name t) ≡ false =
        ground (
          arith,
          before.other,
          string_beq_iff (name x) (name t),
          string_beq_iff (name t) (name x),
        ) in
      elim (Bool-cases (contains (names xs) (name t))) [
        | inl yes_ ↦ rw (yes_, other) (ground (arith, rest, before.not_after))
        | inr no_ ↦ rw (no_, other) rest
      ]

  abbrev pub Distinct : List A → Type 0
  Distinct [] = Unit
  Distinct (x ∷ xs) = (contains (map name xs) (name x) ≡ false) × Distinct xs

  sort-pick :
      (xs ts : List A)
      → Ordered ts
      → All (λ x. Listed x ts) xs
      → Distinct xs
      → sort_by le xs ≡ pick xs ts
  sort-pick [] ts ordered listed distinct = sort_by-nil le ∙ sym (nothing ts)
  sort-pick (x ∷ xs) ts ordered listed distinct =
      sort_by-cons le x xs
      ∙ ap (insert_by le x) (sort-pick xs ts ordered listed.1 distinct.1)
      ∙ insert-pick x xs ts ordered listed.0 distinct.0

  pick_all :
      (xs ts : List A) → All (λ t. contains (map name xs) (name t) ≡ true) ts → pick xs ts ≡ ts
  pick_all xs [] all = refl
  pick_all xs (t ∷ ts) all = ground (arith, pick_all xs ts all.1, all.0)

  -- Distinct entries that an ordered list holds, and that name all of it, are sorted to that list.
  pub sort_to :
      (xs ts : List A)
      → Ordered ts
      → All (λ x. Listed x ts) xs
      → Distinct xs
      → All (λ t. contains (map name xs) (name t) ≡ true) ts
      → sort_by le xs ≡ ts
  sort_to xs ts ordered listed distinct all =
      sort-pick xs ts ordered listed distinct ∙ pick_all xs ts all
