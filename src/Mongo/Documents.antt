-- ===== src/Mongo/Documents.antt =====
-- What one operation does to facts about every document of a collection.
use ecommerce_rest_api.Base.{
  Bool, true, some, none, List, [], ◌∷◌, ◌++◌, ◌≡◌, ◌≢◌, ℕ, refl, ap, sym, subst, ◌∙◌, All,
  Bool-cases, inl, inr, false, if◌then◌else◌,
}
use ecommerce_rest_api.Mongo.Reference.{first, matching, modify_first, modified_first, modify_all}

module _ {κ} {A : Type 0} (P : A → Type κ) where
  pub All-modify_first :
      (p : A → Bool) (f : A → A) (xs : List A)
      → ((x : A) → p x ≡ true → P x → P (f x))
      → All P xs
      → All P (modify_first p f xs)
  All-modify_first p f [] k h = h
  All-modify_first p f (x ∷ xs) k h = elim (Bool-cases (p x)) [
    | inl hit ↦ rw hit (k x hit h.0, h.1)
    | inr miss ↦ rw miss (h.0, All-modify_first p f xs k h.1)
  ]

  pub All-modify_all :
      (p : A → Bool) (f : A → A) (xs : List A)
      → ((x : A) → p x ≡ true → P x → P (f x))
      → All P xs
      → All P (modify_all p f xs)
  All-modify_all p f [] k h = h
  All-modify_all p f (x ∷ xs) k h = elim (Bool-cases (p x)) [
    | inl hit ↦ rw hit (k x hit h.0, All-modify_all p f xs k h.1)
    | inr miss ↦ rw miss (h.0, All-modify_all p f xs k h.1)
  ]

  pub All-matching : (p : A → Bool) (xs : List A) → All P xs → All P (matching p xs)
  All-matching p [] h = h
  All-matching p (x ∷ xs) h = elim (Bool-cases (p x)) [
    | inl hit ↦ rw hit (h.0, All-matching p xs h.1)
    | inr miss ↦ rw miss (All-matching p xs h.1)
  ]

  pub All-concat : (xs ys : List A) → All P xs → All P ys → All P (xs ++ ys)
  All-concat [] ys h k = k
  All-concat (x ∷ xs) ys h k = (h.0, All-concat xs ys h.1 k)

  -- The document that an update returns is the image of one that the filter accepts.
  pub All-modified_first :
      (p : A → Bool) (f : A → A) (xs : List A) (y : A)
      → All P xs
      → modified_first p f xs ≡ some y
      → (x : A) × P x × (p x ≡ true) × (f x ≡ y)
  All-modified_first p f [] y h e = cc
  All-modified_first p f (x ∷ xs) y h e = elim (Bool-cases (p x)) [
    | inl hit ↦ let found : some (f x) ≡ some y = rw hit at e in (x, h.0, hit, cc)
    | inr miss ↦ All-modified_first p f xs y h.1 (rw miss at e)
  ]

  pub All-first :
      (p : A → Bool) (xs : List A) (y : A) → All P xs → first p xs ≡ some y → P y × (p y ≡ true)
  All-first p [] y h e = cc
  All-first p (x ∷ xs) y h e = elim (Bool-cases (p x)) [
    | inl hit ↦
        let found : some x ≡ some y = rw hit at e in
        let same : x ≡ y = cc in (rw same at h.0, rw same at hit)
    | inr miss ↦ All-first p xs y h.1 (rw miss at e)
  ]

module _ {A : Type 0} where
  -- A filter that nothing matches leaves the collection alone.
  pub modify_first-eq_of_none :
      (p : A → Bool) (f : A → A) (xs : List A)
      → modified_first p f xs ≡ none
      → modify_first p f xs ≡ xs
  modify_first-eq_of_none p f [] e = refl
  modify_first-eq_of_none p f (x ∷ xs) e = elim (Bool-cases (p x)) [
    | inl hit ↦ let found : some (f x) ≡ none = rw hit at e in cc
    | inr miss ↦ rw miss (ap (λ l. x ∷ l) (modify_first-eq_of_none p f xs (rw miss at e)))
  ]

module _ {κ ι} {A : Type 0} (P : A → Type κ) (Q : A → Type ι) where
  pub All-mono : (xs : List A) → ((x : A) → P x → Q x) → All P xs → All Q xs
  All-mono [] k h = tt
  All-mono (x ∷ xs) k h = (k x h.0, All-mono xs k h.1)

-- No two documents share a key.
abbrev pub IsUnique {ℓ} : {A : Type ℓ} → (A → ℕ) → List A → Type ℓ
IsUnique key [] = Unit
IsUnique key (x ∷ xs) = All (λ y. key y ≢ key x) xs × IsUnique key xs

module _ {A : Type 0} (key : A → ℕ) where
  All-key-modify_first :
      (n : ℕ) (p : A → Bool) (f : A → A) (xs : List A)
      → ((x : A) → key (f x) ≡ key x)
      → All (λ y. key y ≢ n) xs
      → All (λ y. key y ≢ n) (modify_first p f xs)
  All-key-modify_first n p f xs k =
      All-modify_first (λ y. key y ≢ n) p f xs (λ x hit ne e. ne (sym (k x) ∙ e))

  -- An update that keeps the key keeps the keys distinct.
  pub IsUnique-modify_first :
      (p : A → Bool) (f : A → A) (xs : List A)
      → ((x : A) → key (f x) ≡ key x)
      → IsUnique key xs
      → IsUnique key (modify_first p f xs)
  IsUnique-modify_first p f [] k u = u
  IsUnique-modify_first p f (x ∷ xs) k u = elim (Bool-cases (p x)) [
    | inl hit ↦ rw hit (rw (k x) u.0, u.1)
    | inr miss ↦
        rw miss (All-key-modify_first (key x) p f xs k u.0, IsUnique-modify_first p f xs k u.1)
  ]

-- A unique index: at most one document matches.
abbrev pub AtMostOne : {A : Type 0} → (A → Bool) → List A → Type 0
AtMostOne p [] = Unit
AtMostOne p (x ∷ xs) = if p x then All (λ y. p y ≡ false) xs else AtMostOne p xs

-- A narrower filter updates the one document that matches, or none.
module _ {A : Type 0} (p r : A → Bool) (f : A → A)
    (narrower : (x : A) → r x ≡ true → p x ≡ true) where
  pub modified_first-missing :
      (xs : List A) → All (λ y. p y ≡ false) xs → modified_first r f xs ≡ none
  modified_first-missing [] h = refl
  modified_first-missing (x ∷ xs) (h, hs) = elim (Bool-cases (r x)) [
    | inl hit ↦ let e = narrower x hit in absurd (cc)
    | inr miss ↦ rw (miss) (modified_first-missing xs hs)
  ]

  pub modified_first-AtMostOne :
      (xs : List A) (x : A)
      → AtMostOne p xs
      → first p xs ≡ some x
      → modified_first r f xs ≡ (if r x then some (f x) else none)
  modified_first-AtMostOne [] x one e = cc
  modified_first-AtMostOne (y ∷ xs) x one e = elim (Bool-cases (p y)) [
    | inl hit ↦
        let found : some y ≡ some x = rw (hit) at e in
        let same : y ≡ x = cc in
        let rest = modified_first-missing xs (rw (hit) at one) in
        subst
          (λ z.
            (if r y then some (f y) else modified_first r f xs)
            ≡ (if r z then some (f z) else none))
          same (rw (rest) refl)
    | inr miss ↦
        let ih = modified_first-AtMostOne xs x (rw (miss) at one) (rw (miss) at e) in
        elim (Bool-cases (r y)) [
          | inl narrow ↦ let e = narrower y narrow in absurd (cc)
          | inr other ↦ rw (other) ih
        ]
  ]
