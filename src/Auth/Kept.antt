-- ===== src/Auth/Kept.antt =====
-- What each call of src/services/AuthService.ts does to a token that is used up.
use ecommerce_rest_api.Base.{
  String, ◌≡◌, Bool, true, false, not, ◌||◌, Option, none, some, List, refl, sym, subst, is_some,
  ◌==◌, Bool-cases, Option-cases, inl, inr, arith,
}
use ecommerce_rest_api.Domain.{ObjectId, Date}
use ecommerce_rest_api.Errors.{Result, ok, err}
use ecommerce_rest_api.Access.{User, UserSession, Claims, SessionClaim, absent, malformed, names}
use ecommerce_rest_api.Mongo.Reference.{first, modified_first}
use ecommerce_rest_api.Mongo.Documents.{
  AtMostOne, All-modify_first, All-concat, modify_first-eq_of_none,
}
use ecommerce_rest_api.Sessions.{
  AuthDb, Client, RefreshToken, has_token, is_unused, used, consume_refresh_token, upserted,
  track_session, create_refresh_token, link_session_to_refresh_token, create_user,
  record_security_signal, delete_refresh_token_for_user,
}
use ecommerce_rest_api.Sessions.Reference.{reference_store}
use ecommerce_rest_api.Auth.{
  in_session, for_claim, for_user, rotated, is_refresh, if_verified, refresh, logout, register,
  registered, if_allowed, login, signed_in, matched, with_account, invalid_refresh_token, id_of,
  holds, is_signed_out,
}
use ecommerce_rest_api.Tokens.{
  linked, Packages, AuthConfig, TokenPair, TokenIds, create_token_pair, issued, issue,
  start_session, refresh_expiry,
}
use ecommerce_rest_api.Auth.Spent.{IsSpent, IsOther, unused-none, consumed-IsSpent, removed-IsSpent}

upserted-rows :
    (created : UserSession) (found : Option UserSession × List UserSession) (db : AuthDb)
    → (upserted reference_store created found db).1.refresh_tokens ≡ db.refresh_tokens
upserted-rows created (none, sessions) db = refl
upserted-rows created (some s, sessions) db = refl

track_session-rows :
    (sha256 : String → String) (user : ObjectId) (req : Client) (now : Date) (db : AuthDb)
    → (track_session sha256 reference_store user req now db).1.refresh_tokens ≡ db.refresh_tokens
unfolding track_session
track_session-rows sha256 user req now db = upserted-rows _ _ db

module _ (x : Packages) (cfg : AuthConfig) (token : String) where
  -- Whoever gets tokens with these ids gets none with the token's digest.
  abbrev pub IsFresh : TokenIds → Date → Type 0
  IsFresh ids at =
      (user : User) (sid : Option ObjectId)
      → IsOther x.sha256 token (create_token_pair x cfg user sid ids at).refresh_token

  abbrev pub KeepsSpent : AuthDb → Type 0
  KeepsSpent db = IsSpent x.sha256 token db.refresh_tokens

  issued-KeepsSpent :
      (user : User) (sid : Option ObjectId) (tokens : TokenPair) (now : Date) (expiry : Result Date)
      (db : AuthDb)
      → IsOther x.sha256 token tokens.refresh_token
      → KeepsSpent db
      → KeepsSpent (issued x reference_store user sid tokens now expiry db).1
  unfolding create_refresh_token link_session_to_refresh_token issued linked
  issued-KeepsSpent user sid tokens now (err failure) db f h = h
  issued-KeepsSpent user none tokens now (ok at) db f h =
      All-concat (λ row. (not (has_token x.sha256 token row) || is_some row.revoked_at) ≡ true)
        db.refresh_tokens _ h (ground (arith, f), tt)
  issued-KeepsSpent user (some sid) tokens now (ok at) db f h =
      All-concat (λ row. (not (has_token x.sha256 token row) || is_some row.revoked_at) ≡ true)
        db.refresh_tokens _ h (ground (arith, f), tt)

  issue-KeepsSpent :
      (user : User) (sid : Option ObjectId) (ids : TokenIds) (now : Date) (db : AuthDb)
      → IsFresh ids now
      → KeepsSpent db
      → KeepsSpent (issue x cfg reference_store user sid ids now db).1
  unfolding issue
  issue-KeepsSpent user sid ids now db f h =
      issued-KeepsSpent user sid (create_token_pair x cfg user sid ids now) now
        (refresh_expiry cfg now) db (f user sid) h

  start_session-KeepsSpent :
      (user : User) (req : Client) (ids : TokenIds) (now : Date) (db : AuthDb)
      → IsFresh ids now
      → KeepsSpent db
      → KeepsSpent (start_session x cfg reference_store user req ids now db).1.1
  unfolding start_session
  start_session-KeepsSpent user req ids now db f h =
      let tracked = track_session x.sha256 reference_store user.id req now db in
      issue-KeepsSpent user (some tracked.0.id) ids now tracked.1 f
        (subst (IsSpent x.sha256 token) (sym (track_session-rows x.sha256 user.id req now db)) h)

  registered-KeepsSpent :
      (name email password tenant : String) (req : Client) (salt : String) (ids : TokenIds)
      (now : Date) (db : AuthDb) (taken : Bool)
      → IsFresh ids now
      → KeepsSpent db
      → KeepsSpent
          (registered x cfg reference_store name email password tenant req salt ids now db taken).1
  unfolding registered create_user
  registered-KeepsSpent name email password tenant req salt ids now db true f h = h
  registered-KeepsSpent name email password tenant req salt ids now db false f h =
      let (user, db') = create_user reference_store name email (x.hash password salt) tenant db in
      start_session-KeepsSpent user req ids now db' f h

  if_allowed-KeepsSpent :
      (allowed : Result (Unit {0})) (db : AuthDb) (rest : Result TokenPair × AuthDb)
      → KeepsSpent db
      → KeepsSpent rest.1
      → KeepsSpent (if_allowed allowed db rest).1
  if_allowed-KeepsSpent (err failure) db rest h k = h
  if_allowed-KeepsSpent (ok _) db rest h k = k

  pub register-KeepsSpent :
      (name email password tenant : String) (req : Client) (salt : String) (ids : TokenIds)
      (now : Date) (db : AuthDb)
      → IsFresh ids now
      → KeepsSpent db
      → KeepsSpent (register x cfg reference_store name email password tenant req salt ids now db).1
  unfolding register
  register-KeepsSpent name email password tenant req salt ids now db f h =
      if_allowed-KeepsSpent _ db _ h
        (registered-KeepsSpent name email password tenant req salt ids now db _ f h)

  signed_in-KeepsSpent :
      (user : User) (tenant : String) (req : Client) (now : Date) (session : UserSession)
      (outcome : Result TokenPair × AuthDb)
      → KeepsSpent outcome.1
      → KeepsSpent (signed_in reference_store user tenant req now (session, outcome)).1
  unfolding signed_in record_security_signal
  signed_in-KeepsSpent user tenant req now session (err failure, db) h = h
  signed_in-KeepsSpent user tenant req now session (ok tokens, db) h = h

  with_account-KeepsSpent :
      (password tenant : String) (req : Client) (ids : TokenIds) (now : Date) (db : AuthDb)
      (account : Option User)
      → IsFresh ids now
      → KeepsSpent db
      → KeepsSpent (with_account x cfg reference_store password tenant req ids now db account).1
  unfolding with_account matched record_security_signal
  with_account-KeepsSpent password tenant req ids now db none f h = h
  with_account-KeepsSpent password tenant req ids now db (some user) f h =
      let session = start_session x cfg reference_store user req ids now db in
      elim (Bool-cases (x.compare password user.password)) [
        | inl good ↦ rw (good) (
            signed_in-KeepsSpent user tenant req now session.0 session.1
              (start_session-KeepsSpent user req ids now db f h))
        | inr bad ↦ rw (bad) h
      ]

  pub login-KeepsSpent :
      (email password tenant : String) (req : Client) (ids : TokenIds) (now : Date) (db : AuthDb)
      → IsFresh ids now
      → KeepsSpent db
      → KeepsSpent (login x cfg reference_store email password tenant req ids now db).1
  unfolding login
  login-KeepsSpent email password tenant req ids now db f h =
      with_account-KeepsSpent password tenant req ids now db _ f h

  in_session-KeepsSpent :
      (user : User) (sid : Option ObjectId) (ids : TokenIds) (now : Date) (db : AuthDb)
      → IsFresh ids now
      → KeepsSpent db
      → KeepsSpent (in_session x cfg reference_store user sid ids now db).1
  unfolding in_session
  in_session-KeepsSpent user none ids now db f h = issue-KeepsSpent user none ids now db f h
  in_session-KeepsSpent user (some sid) ids now db f h =
      elim (Bool-cases (is_some (first (is_signed_out sid) db.sessions))) [
        | inl out ↦ rw (out) h
        | inr live ↦ rw (live) (issue-KeepsSpent user (some sid) ids now db f h)
      ]

  for_claim-KeepsSpent :
      (user : User) (row : RefreshToken) (sid : SessionClaim) (ids : TokenIds) (now : Date)
      (db : AuthDb)
      → IsFresh ids now
      → KeepsSpent db
      → KeepsSpent (for_claim x cfg reference_store user row sid ids now db).1
  for_claim-KeepsSpent user row (names sid) ids now db f h =
      in_session-KeepsSpent user (some sid) ids now db f h
  for_claim-KeepsSpent user row absent ids now db f h =
      in_session-KeepsSpent user (id_of (first (holds user.id row.id) db.sessions)) ids now db f h
  for_claim-KeepsSpent user row malformed ids now db f h = h

  for_user-KeepsSpent :
      (row : RefreshToken) (claims : Claims) (ids : TokenIds) (now : Date) (db : AuthDb)
      (user : Option User)
      → IsFresh ids now
      → KeepsSpent db
      → KeepsSpent (for_user x cfg reference_store row claims ids now db user).1
  for_user-KeepsSpent row claims ids now db none f h = h
  for_user-KeepsSpent row claims ids now db (some user) f h =
      for_claim-KeepsSpent user row claims.sid ids now db f h

  rotated-KeepsSpent :
      (claims : Claims) (ids : TokenIds) (now : Date) (consumed : Option RefreshToken × AuthDb)
      → IsFresh ids now
      → KeepsSpent consumed.1
      → KeepsSpent (rotated x cfg reference_store claims ids now consumed).1
  unfolding rotated
  rotated-KeepsSpent claims ids now (none, db) f h = h
  rotated-KeepsSpent claims ids now (some row, db) f h = elim (Bool-cases (row.user == claims.id)) [
    | inl own ↦ rw (own) (for_user-KeepsSpent row claims ids now db _ f h)
    | inr other ↦ rw (other) h
  ]

  pub if_verified-KeepsSpent :
      (other : String) (ids : TokenIds) (now : Date) (db : AuthDb) (claims : Option Claims)
      → IsFresh ids now
      → KeepsSpent db
      → KeepsSpent (if_verified x cfg reference_store other ids now db claims).1
  unfolding if_verified consume_refresh_token
  if_verified-KeepsSpent other ids now db none f h = h
  if_verified-KeepsSpent other ids now db (some claims) f h =
      let kept =
        All-modify_first
          (λ row. (not (has_token x.sha256 token row) || is_some row.revoked_at) ≡ true)
          (is_unused x.sha256 other now) (used now) db.refresh_tokens (λ row p s. ground arith) h in
      elim (Bool-cases (is_refresh claims.typ)) [
        | inl good ↦ rw (good) (rotated-KeepsSpent claims ids now _ f kept)
        | inr bad ↦ rw (bad) h
      ]

  pub logout-KeepsSpent :
      (other : String) (user : ObjectId) (sid : Option ObjectId) (now : Date) (db : AuthDb)
      → KeepsSpent db
      → KeepsSpent (logout x reference_store other user sid now db)
  unfolding logout delete_refresh_token_for_user
  logout-KeepsSpent other user none now db h = removed-IsSpent x.sha256 token _ db.refresh_tokens h
  logout-KeepsSpent other user (some sid) now db h =
      removed-IsSpent x.sha256 token _ db.refresh_tokens h

  pub if_verified-spends :
      (ids : TokenIds) (now : Date) (db : AuthDb) (claims : Option Claims) (tokens : TokenPair)
      → IsFresh ids now
      → AtMostOne (has_token x.sha256 token) db.refresh_tokens
      → (if_verified x cfg reference_store token ids now db claims).0 ≡ ok tokens
      → KeepsSpent (if_verified x cfg reference_store token ids now db claims).1
  unfolding if_verified consume_refresh_token invalid_refresh_token rotated
  if_verified-spends ids now db none tokens f one e = cc
  if_verified-spends ids now db (some claims) tokens f one e =
      elim (Bool-cases (is_refresh claims.typ)) [
        | inl good ↦
            elim (Option-cases
              (modified_first (is_unused x.sha256 token now) (used now) db.refresh_tokens)) [
                | inl missing ↦
                    let good_e = rw (good) at e in let e' = rw (missing) at good_e in absurd (cc)
                | inr (row, hit) ↦ rw (good) (
                    rotated-KeepsSpent claims ids now _ f
                      (consumed-IsSpent x.sha256 token now db.refresh_tokens row one hit))
              ]
        | inr bad ↦ let e' = rw (bad) at e in absurd (cc)
      ]

  pub refused :
      (ids : TokenIds) (now : Date) (db : AuthDb)
      → KeepsSpent db
      → refresh x cfg reference_store token ids now db ≡ (err invalid_refresh_token, db)
  unfolding refresh if_verified consume_refresh_token rotated
  refused ids now db h =
      let missing = unused-none x.sha256 token now db.refresh_tokens h in
      let same =
        modify_first-eq_of_none (is_unused x.sha256 token now) (used now) db.refresh_tokens
          missing in
      elim (Option-cases (x.verify token cfg.refresh_secret now)) [
        | inl forged ↦ rw (forged) refl
        | inr (claims, verified) ↦ elim (Bool-cases (is_refresh claims.typ)) [
          | inl good ↦ rw (verified, good, missing, same) refl
          | inr bad ↦ rw (verified, bad) refl
        ]
      ]
