-- ===== src/Mongo/Unique.antt =====
-- Filters on a collection whose documents have distinct keys.
use ecommerce_rest_api.Base.{
  ℕ, Bool, true, false, some, none, List, [], ◌∷◌, ◌≡◌, ◌≢◌, refl, ap, sym, ◌∙◌, All, Bool-cases,
  inl, inr,
}
use ecommerce_rest_api.Mongo.Reference.{first, modify_first, modified_first}
use ecommerce_rest_api.Mongo.Documents.{IsUnique, All-first}

module _ {A : Type 0} (p : A → Bool) where
  pub first-none : (xs : List A) → first p xs ≡ none → All (λ x. p x ≡ false) xs
  first-none [] e = tt
  first-none (x ∷ xs) e = elim (Bool-cases (p x)) [
    | inl hit ↦ let found : some x ≡ none = rw hit at e in cc
    | inr miss ↦ (miss, first-none xs (rw miss at e))
  ]

  pub modified_first-none :
      (f : A → A) (xs : List A) → modified_first p f xs ≡ none → All (λ x. p x ≡ false) xs
  modified_first-none f [] e = tt
  modified_first-none f (x ∷ xs) e = elim (Bool-cases (p x)) [
    | inl hit ↦ let found : some (f x) ≡ none = rw hit at e in cc
    | inr miss ↦ (miss, modified_first-none f xs (rw miss at e))
  ]

  pub modified_first-some :
      (f : A → A) (xs : List A) (y : A)
      → modified_first p f xs ≡ some y
      → (x : A) × (first p xs ≡ some x) × (p x ≡ true) × (y ≡ f x)
  modified_first-some f [] y e = cc
  modified_first-some f (x ∷ xs) y e = elim (Bool-cases (p x)) [
    | inl hit ↦ let found : some (f x) ≡ some y = rw hit at e in (x, rw hit refl, hit, cc)
    | inr miss ↦
        let (z, first_z, hit, same) = modified_first-some f xs y (rw miss at e) in
        (z, rw miss first_z, hit, same)
  ]

  pub first-hit : (xs : List A) (x : A) → first p xs ≡ some x → p x ≡ true
  first-hit [] x e = cc
  first-hit (y ∷ xs) x e = elim (Bool-cases (p y)) [
    | inl hit ↦ let found : some y ≡ some x = rw hit at e in let same : y ≡ x = cc in rw same at hit
    | inr miss ↦ first-hit xs x (rw miss at e)
  ]

-- A filter that accepts at most one key finds what a narrower filter finds.
module _ {A : Type 0} (key : A → ℕ) (n : ℕ) (p q : A → Bool)
    (weaker : (x : A) → p x ≡ true → q x ≡ true) (one_key : (x : A) → q x ≡ true → key x ≡ n) where
  only_one :
      (x y : A) (xs : List A) → All (λ z. key z ≢ key x) xs → first p xs ≡ some y → q x ≡ false
  only_one x y xs u e = elim (Bool-cases (q x)) [
    | inr miss ↦ miss
    | inl hit ↦
        let (differs, p_y) = All-first (λ z. key z ≢ key x) p xs y u e in
        absurd (differs (one_key y (weaker y p_y) ∙ sym (one_key x hit)))
  ]

  pub first-weaken :
      (xs : List A) (x : A) → IsUnique key xs → first p xs ≡ some x → first q xs ≡ some x
  first-weaken [] x u e = cc
  first-weaken (y ∷ xs) x u e = elim (Bool-cases (p y)) [
    | inl hit ↦ rw (weaker y hit) (rw hit at e)
    | inr miss ↦
        let later : first p xs ≡ some x = rw miss at e in
        rw (only_one y x xs u.0 later) (first-weaken xs x u.1 later)
  ]

  pub modify_first-weaken :
      (f : A → A) (xs : List A) (x : A)
      → IsUnique key xs
      → first p xs ≡ some x
      → modify_first p f xs ≡ modify_first q (λ _. f x) xs
  modify_first-weaken f [] x u e = cc
  modify_first-weaken f (y ∷ xs) x u e = elim (Bool-cases (p y)) [
    | inl hit ↦
        let found : some y ≡ some x = rw hit at e in
        let same : y ≡ x = cc in rw (hit, weaker y hit) (ap (λ z. f z ∷ xs) same)
    | inr miss ↦
        let later : first p xs ≡ some x = rw miss at e in
        rw (miss, only_one y x xs u.0 later)
          (ap (λ l. y ∷ l) (modify_first-weaken f xs x u.1 later))
  ]
