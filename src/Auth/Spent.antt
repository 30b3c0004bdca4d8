-- ===== src/Auth/Spent.antt =====
-- The rows of one refresh token: once they are all used up they stay so.
use ecommerce_rest_api.Base.{
  String, ◌≡◌, Bool, true, false, not, ◌||◌, none, some, List, [], ◌∷◌, refl, is_some, str_eq, All,
  Bool-cases, inl, inr, arith,
}
use ecommerce_rest_api.Domain.{Date}
use ecommerce_rest_api.Mongo.Reference.{modify_first, modified_first, remove_first}
use ecommerce_rest_api.Mongo.Documents.{AtMostOne}
use ecommerce_rest_api.Sessions.{RefreshToken, has_token, is_unused, used}

module _ (sha256 : String → String) (token : String) where
  -- Every row of the token is used up.
  abbrev pub IsSpent : List RefreshToken → Type 0
  IsSpent = All (λ row. (not (has_token sha256 token row) || is_some row.revoked_at) ≡ true)

  -- The digest of a new token is not the token's.
  abbrev pub IsOther : String → Type 0
  IsOther fresh = (str_eq (sha256 fresh) (sha256 token) || str_eq (sha256 fresh) token) ≡ false

  pub unused-none :
      (now : Date) (rows : List RefreshToken)
      → IsSpent rows
      → modified_first (is_unused sha256 token now) (used now) rows ≡ none
  unused-none now [] h = refl
  unused-none now (row ∷ rows) (h, hs) =
      let miss : is_unused sha256 token now row ≡ false = ground (arith, h) in
      rw (miss) (unused-none now rows hs)

  others-IsSpent :
      (rows : List RefreshToken)
      → All (λ row. has_token sha256 token row ≡ false) rows
      → IsSpent rows
  others-IsSpent [] h = tt
  others-IsSpent (row ∷ rows) (h, hs) = (ground (arith, h), others-IsSpent rows hs)

  pub consumed-IsSpent :
      (now : Date) (rows : List RefreshToken) (row : RefreshToken)
      → AtMostOne (has_token sha256 token) rows
      → modified_first (is_unused sha256 token now) (used now) rows ≡ some row
      → IsSpent (modify_first (is_unused sha256 token now) (used now) rows)
  consumed-IsSpent now [] row h e = tt
  consumed-IsSpent now (x ∷ rows) row h e =
      let ih = consumed-IsSpent now rows row in
      elim (Bool-cases (is_unused sha256 token now x)) [
        | inl hit ↦
            let one : has_token sha256 token x ≡ true = ground (arith, hit) in
            rw (hit) (ground arith, others-IsSpent rows (rw (one) at h))
        | inr miss ↦
            let later = rw (miss) at e in
            rw (miss) (elim (Bool-cases (has_token sha256 token x)) [
              | inl one ↦
                  let none_left = unused-none now rows (others-IsSpent rows (rw (one) at h)) in
                  absurd (cc)
              | inr other ↦ (ground (arith, other), ih (rw (other) at h) later)
            ])
      ]

  pub removed-IsSpent :
      (p : RefreshToken → Bool) (rows : List RefreshToken)
      → IsSpent rows
      → IsSpent (remove_first p rows)
  removed-IsSpent p [] h = tt
  removed-IsSpent p (row ∷ rows) (h, hs) = elim (Bool-cases (p row)) [
    | inl hit ↦ rw (hit) hs
    | inr miss ↦ rw (miss) (h, removed-IsSpent p rows hs)
  ]
