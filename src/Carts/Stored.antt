-- ===== src/Carts/Stored.antt =====
-- Where the database keeps the one cart of a user.
use ecommerce_rest_api.Base.{
  ℕ, ◌≡◌, ◌≢◌, Bool, true, false, some, List, [], ◌∷◌, ◌++◌, refl, ap, ◌∙◌, arith, Bool-cases, inl,
  inr, All, ◌==◌, sym,
}
use ecommerce_rest_api.Mongo.Reference.{first, modify_first}
use ecommerce_rest_api.Mongo.Documents.{IsUnique, All-first}

module _ {A : Type 0} (p r : A → Bool) (f : A → A)
    (narrower : (x : A) → r x ≡ true → p x ≡ true) where
  -- An update of the one document that matches stores its image there.
  pub modify_first-AtMostOne :
      (xs : List A) (x : A)
      → first p xs ≡ some x
      → r x ≡ true
      → modify_first r f xs ≡ modify_first p (λ _. f x) xs
  modify_first-AtMostOne [] x e h = cc
  modify_first-AtMostOne (y ∷ xs) x e h = elim (Bool-cases (p y)) [
    | inl hit ↦
        let found : some y ≡ some x = rw (hit) at e in
        let same : y ≡ x = cc in
        let narrow : r y ≡ true = rw (same) h in rw (hit, narrow) (ap (λ z. f z ∷ xs) same)
    | inr miss ↦
        let ih = modify_first-AtMostOne xs x (rw (miss) at e) h in
        elim (Bool-cases (r y)) [
          | inl narrow ↦ let e = narrower y narrow in absurd (cc)
          | inr wide ↦ rw (miss, wide) (ap (λ zs. y ∷ zs) ih)
        ]
  ]

module _ {A : Type 0} (key : A → ℕ) where
  -- The document that was put in place of one with its key is found by it.
  pub first-modify_first :
      (p : A → Bool) (xs : List A) (x z : A)
      → IsUnique key xs
      → first p xs ≡ some x
      → key z ≡ key x
      → first (λ y. key y == key z) (modify_first p (λ _. z) xs) ≡ some z
  first-modify_first p [] x z u e k = cc
  first-modify_first p (y ∷ xs) x z (differs, u) e k = elim (Bool-cases (p y)) [
    | inl hit ↦ let here : (key z == key z) ≡ true = ground arith in rw (hit, here) refl
    | inr miss ↦
        let later : first p xs ≡ some x = rw (miss) at e in
        let other = (All-first (λ w. key w ≢ key y) p xs x differs later).0 in
        let not_here : (key y == key z) ≡ false = elim (Bool-cases (key y == key z)) [
          | inl same ↦
              let c : key y ≡ key z = ground (arith, same) in absurd (other (sym k ∙ sym c))
          | inr different ↦ different
        ] in
        rw (miss, not_here) (first-modify_first p xs x z u later k)
  ]

  -- A document with a new key is found by it.
  pub first-concat :
      (xs : List A) (z : A)
      → All (λ y. key y ≢ key z) xs
      → first (λ y. key y == key z) (xs ++ z ∷ []) ≡ some z
  first-concat [] z h = let here : (key z == key z) ≡ true = ground arith in rw (here) refl
  first-concat (y ∷ xs) z (h, hs) =
      let ih = first-concat xs z hs in
      let not_here : (key y == key z) ≡ false = elim (Bool-cases (key y == key z)) [
        | inl same ↦ let c : key y ≡ key z = ground (arith, same) in absurd (h c)
        | inr different ↦ different
      ] in
      rw (not_here) ih
