-- ===== src/Mongo/Reference.antt =====
-- What MongoDB documents of one operation on the documents of a collection, as functions on lists.
use ecommerce_rest_api.Base.{ℕ, suc, Bool, Option, none, some, List, [], ◌∷◌, ◌++◌, if◌then◌else◌}

module _ {A : Type 0} (p : A → Bool) where
  abbrev pub first : List A → Option A
  first [] = none
  first (x ∷ xs) = let rest = first xs in if p x then some x else rest

  abbrev pub matching : List A → List A
  matching [] = []
  matching (x ∷ xs) = let rest = matching xs in if p x then x ∷ rest else rest

  abbrev pub count_of : List A → ℕ
  count_of [] = 0
  count_of (x ∷ xs) = let rest = count_of xs in if p x then suc rest else rest

  abbrev pub remove_first : List A → List A
  remove_first [] = []
  remove_first (x ∷ xs) = let rest = remove_first xs in if p x then xs else x ∷ rest

module _ {A : Type 0} (p : A → Bool) (f : A → A) where
  abbrev pub modify_first : List A → List A
  modify_first [] = []
  modify_first (x ∷ xs) = let rest = modify_first xs in if p x then f x ∷ xs else x ∷ rest

  abbrev pub modified_first : List A → Option A
  modified_first [] = none
  modified_first (x ∷ xs) = let rest = modified_first xs in if p x then some (f x) else rest

  abbrev pub modify_all : List A → List A
  modify_all [] = []
  modify_all (x ∷ xs) = let rest = modify_all xs in (if p x then f x else x) ∷ rest

-- Every update of the modelled code changes the document that it matches.
abbrev pub modified_count : {A : Type 0} → (A → Bool) → (A → A) → List A → ℕ
modified_count p f xs = elim (modified_first p f xs) [ none ↦ 0 | some _ ↦ 1 ]

abbrev pub inserted : {A : Type 0} → A → List A → List A
inserted a xs = xs ++ a ∷ []
