-- ===== src/Auth/Rotation.antt =====
-- A refresh token is exchanged once: whatever is called in between.
use ecommerce_rest_api.Base.{String, ◌≡◌, Option}
use ecommerce_rest_api.Domain.{ObjectId, Date}
use ecommerce_rest_api.Errors.{ok, err}
use ecommerce_rest_api.Mongo.Documents.{AtMostOne}
use ecommerce_rest_api.Sessions.{Store, IsStore, AuthDb, Client, has_token}
use ecommerce_rest_api.Sessions.Reference.{reference_store, by_store}
use ecommerce_rest_api.Auth.{refresh, logout, register, login, invalid_refresh_token}
use ecommerce_rest_api.Tokens.{Packages, AuthConfig, TokenPair, TokenIds}
use ecommerce_rest_api.Auth.Kept.{
  IsFresh, KeepsSpent, register-KeepsSpent, login-KeepsSpent, if_verified-KeepsSpent,
  if_verified-spends, logout-KeepsSpent, refused,
}

-- What anybody does after, while nobody is issued the token again: sign up, sign in, refresh any
-- token, this one included, and sign out.
pub data Later (x : Packages) (cfg : AuthConfig) (store : Store) (token : String)
    : AuthDb → AuthDb → Type 0 where
  quiet : {db : AuthDb} → Later x cfg store token db db
  signed_up :
      {db end : AuthDb} (name email password tenant : String) (req : Client) (salt : String)
      (ids : TokenIds) (now : Date)
      → IsFresh x cfg token ids now
      → Later x cfg store token
          (register x cfg store name email password tenant req salt ids now db).1
          end
      → Later x cfg store token db end
  logged_in :
      {db end : AuthDb} (email password tenant : String) (req : Client) (ids : TokenIds)
      (now : Date)
      → IsFresh x cfg token ids now
      → Later x cfg store token (login x cfg store email password tenant req ids now db).1 end
      → Later x cfg store token db end
  refreshed :
      {db end : AuthDb} (other : String) (ids : TokenIds) (now : Date)
      → IsFresh x cfg token ids now
      → Later x cfg store token (refresh x cfg store other ids now db).1 end
      → Later x cfg store token db end
  logged_out :
      {db end : AuthDb} (other : String) (user : ObjectId) (sid : Option ObjectId) (now : Date)
      → Later x cfg store token (logout x store other user sid now db) end
      → Later x cfg store token db end

Later-KeepsSpent :
    (x : Packages) (cfg : AuthConfig) (token : String) (db end : AuthDb)
    → Later x cfg reference_store token db end
    → KeepsSpent x cfg token db
    → KeepsSpent x cfg token end
unfolding refresh
Later-KeepsSpent x cfg token db _ quiet h = h
Later-KeepsSpent x cfg token db end (signed_up name email password tenant req salt ids now f rest)
      h =
    Later-KeepsSpent x cfg token _ end rest
      (register-KeepsSpent x cfg token name email password tenant req salt ids now db f h)
Later-KeepsSpent x cfg token db end (logged_in email password tenant req ids now f rest) h =
    Later-KeepsSpent x cfg token _ end rest
      (login-KeepsSpent x cfg token email password tenant req ids now db f h)
Later-KeepsSpent x cfg token db end (refreshed other ids now f rest) h =
    Later-KeepsSpent x cfg token _ end rest (
      if_verified-KeepsSpent x cfg token other ids now db (x.verify other cfg.refresh_secret now) f
        h)
Later-KeepsSpent x cfg token db end (logged_out other user sid now rest) h =
    Later-KeepsSpent x cfg token _ end rest (logout-KeepsSpent x cfg token other user sid now db h)

-- A refresh token that was exchanged is refused ever after, and presenting it again writes nothing,
-- whatever anybody does in between, as long as at most one row was the token's and no new token has
-- its digest.
pub refresh-once :
    (x : Packages) (cfg : AuthConfig) (store : Store) (token : String) (ids ids' : TokenIds)
    (now at : Date) (db end : AuthDb) (tokens : TokenPair)
    → IsStore store
    → AtMostOne (has_token x.sha256 token) db.refresh_tokens
    → IsFresh x cfg token ids now
    → (refresh x cfg store token ids now db).0 ≡ ok tokens
    → Later x cfg store token (refresh x cfg store token ids now db).1 end
    → refresh x cfg store token ids' at end ≡ (err invalid_refresh_token, end)
unfolding refresh
refresh-once x cfg store token ids ids' now at db end tokens is one f =
    by_store
      (λ store.
        (refresh x cfg store token ids now db).0 ≡ ok tokens
        → Later x cfg store token (refresh x cfg store token ids now db).1 end
        → refresh x cfg store token ids' at end ≡ (err invalid_refresh_token, end))
      store is
      (λ e later. refused x cfg token ids' at end (
        Later-KeepsSpent x cfg token _ end later (
          if_verified-spends x cfg token ids now db (x.verify token cfg.refresh_secret now) tokens f
            one e)))
