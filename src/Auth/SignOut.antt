-- ===== src/Auth/SignOut.antt =====
-- What signing out takes away: the session's access tokens and its refresh tokens.
use ecommerce_rest_api.Base.{
  ◌≡◌, String, Bool, true, ◌&&◌, Option, none, some, List, [], ◌∷◌, refl, is_some, ◌==◌, Bool-cases,
  Option-cases, inl, inr, arith,
}
use ecommerce_rest_api.Domain.{ObjectId, Date}
use ecommerce_rest_api.Errors.{Result, err, AppError}
use ecommerce_rest_api.Mongo.Reference.{first, modify_first, modified_first}
use ecommerce_rest_api.Access.{
  User, UserSession, Claims, SessionClaim, names, is_revoked_session, is_access, auth, identify,
  found_user,
}
use ecommerce_rest_api.Sessions.{
  Store, IsStore, AuthDb, RefreshToken, consume_refresh_token, delete_refresh_token_for_user,
  is_unused, used,
}
use ecommerce_rest_api.Sessions.Reference.{reference_store, by_store}
use ecommerce_rest_api.Auth.{
  is_signed_out, in_session, for_user, rotated, is_refresh, if_verified, refresh, logout,
}
use ecommerce_rest_api.Tokens.{Packages, AuthConfig, TokenIds}

abbrev pub IsRefused : {A : Type 0} → Result A → Type 0
IsRefused {A} r = (failure : AppError) × (r ≡ err failure)

abbrev pub is_own_session : ObjectId → ObjectId → UserSession → Bool
is_own_session sid user s = s.id == sid && s.user == user

first-modify_first :
    {A : Type 0} (p q : A → Bool) (f : A → A) (xs : List A) (y : A)
    → ((x : A) → p x ≡ true → q (f x) ≡ true)
    → first p xs ≡ some y
    → is_some (first q (modify_first p f xs)) ≡ true
first-modify_first p q f [] y k e = cc
first-modify_first p q f (x ∷ xs) y k e = elim (Bool-cases (p x)) [
  | inl hit ↦ rw (hit, k x hit) refl
  | inr miss ↦
      let ih = first-modify_first p q f xs y k (rw (miss) at e) in
      elim (Bool-cases (q x)) [ inl here ↦ rw (miss, here) refl | inr other ↦ rw (miss, other) ih ]
]

found_user-IsRefused :
    (sid : SessionClaim) (account : Option User) → IsRefused (found_user sid true account)
found_user-IsRefused sid none = (_, refl)
found_user-IsRefused sid (some user) = (_, refl)

auth-IsRefused :
    (users : List User) (sessions : List UserSession) (claims : Claims) (sid : ObjectId)
    → claims.sid ≡ names sid
    → is_some (first (is_revoked_session sid claims.id) sessions) ≡ true
    → IsRefused (auth reference_store.users reference_store.sessions users sessions (some claims))
unfolding auth identify
auth-IsRefused users sessions claims sid named revoked = elim (Bool-cases (is_access claims.typ)) [
  | inr other ↦ rw (other) (_, refl)
  | inl access ↦ rw (access, named, revoked) (found_user-IsRefused (names sid) _)
]

module _ (x : Packages) (cfg : AuthConfig) where
  for_user-IsRefused :
      (row : RefreshToken) (claims : Claims) (ids : TokenIds) (at : Date) (sid : ObjectId)
      (db : AuthDb) (user : Option User)
      → claims.sid ≡ names sid
      → is_some (first (is_signed_out sid) db.sessions) ≡ true
      → IsRefused (for_user x cfg reference_store row claims ids at db user).0
  unfolding in_session
  for_user-IsRefused row claims ids at sid db none named out = (_, refl)
  for_user-IsRefused row claims ids at sid db (some user) named out = rw (named, out) (_, refl)

  if_verified-IsRefused :
      (token : String) (ids : TokenIds) (at : Date) (sid : ObjectId) (db : AuthDb) (claims : Claims)
      → claims.sid ≡ names sid
      → is_some (first (is_signed_out sid) db.sessions) ≡ true
      → IsRefused (if_verified x cfg reference_store token ids at db (some claims)).0
  unfolding if_verified consume_refresh_token rotated
  if_verified-IsRefused token ids at sid db claims named out =
      elim (Bool-cases (is_refresh claims.typ)) [
        | inr other ↦ rw (other) (_, refl)
        | inl good ↦
            elim (Option-cases
              (modified_first (is_unused x.sha256 token at) (used at) db.refresh_tokens)) [
                | inl missing ↦ rw (good, missing) (_, refl)
                | inr (row, hit) ↦ elim (Bool-cases (row.user == claims.id)) [
                  | inr other ↦ rw (good, hit, other) (_, refl)
                  | inl own ↦
                      rw (good, hit, own) (for_user-IsRefused row claims ids at sid _ _ named out)
                ]
              ]
      ]

  signed_out :
      (presented token : String) (ids : TokenIds) (sid : ObjectId) (now at : Date) (db : AuthDb)
      (session : UserSession) (bearer claims : Claims)
      → first (is_own_session sid bearer.id) db.sessions ≡ some session
      → bearer.sid ≡ names sid
      → x.verify token cfg.refresh_secret at ≡ some claims
      → claims.sid ≡ names sid
      → (let after = logout x reference_store presented bearer.id (some sid) now db in
          IsRefused (
            auth reference_store.users reference_store.sessions after.users after.sessions
              (some bearer))
          × IsRefused (refresh x cfg reference_store token ids at after).0)
  unfolding logout refresh delete_refresh_token_for_user
  signed_out presented token ids sid now at db session bearer claims stored named verified also =
      let revoke : UserSession → UserSession = λ s. record s { revoked_at = some now } in
      (
        auth-IsRefused db.users _ bearer sid named (
            first-modify_first (is_own_session sid bearer.id) (is_revoked_session sid bearer.id)
              revoke db.sessions session (λ s h. ground (arith, h)) stored),
        rw (verified) (
            if_verified-IsRefused token ids at sid _ claims also (
              first-modify_first (is_own_session sid bearer.id) (is_signed_out sid) revoke
                db.sessions session (λ s h. ground (arith, h)) stored)),
      )

-- Signing out of a stored session stops every bearer token that names it for its user, and every
-- refresh token that names it.
pub logout-IsRefused :
    (x : Packages) (cfg : AuthConfig) (store : Store) (presented token : String) (ids : TokenIds)
    (sid : ObjectId) (now at : Date) (db : AuthDb) (session : UserSession) (bearer claims : Claims)
    → IsStore store
    → first (is_own_session sid bearer.id) db.sessions ≡ some session
    → bearer.sid ≡ names sid
    → x.verify token cfg.refresh_secret at ≡ some claims
    → claims.sid ≡ names sid
    → (let after = logout x store presented bearer.id (some sid) now db in
        IsRefused (auth store.users store.sessions after.users after.sessions (some bearer))
        × IsRefused (refresh x cfg store token ids at after).0)
logout-IsRefused x cfg store presented token ids sid now at db session bearer claims is stored named
      verified also =
    by_store
      (λ store.
        (let after = logout x store presented bearer.id (some sid) now db in
          IsRefused (auth store.users store.sessions after.users after.sessions (some bearer))
          × IsRefused (refresh x cfg store token ids at after).0))
      store is
      (signed_out x cfg presented token ids sid now at db session bearer claims stored named
        verified also)
