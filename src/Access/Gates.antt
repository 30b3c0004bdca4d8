-- ===== src/Access/Gates.antt =====
-- What passing a gate means.
use ecommerce_rest_api.Base.{
  ◌≡◌, true, false, Option, none, some, List, refl, sym, ap, subst, ◌∙◌, inl, inr, Bool-cases,
  Option-cases, arith,
}
use ecommerce_rest_api.Domain.{ObjectId}
use ecommerce_rest_api.Errors.{Result, ok, err}
use ecommerce_rest_api.Mongo.{Collection, IsCollection}
use ecommerce_rest_api.Mongo.Reference.{first}
use ecommerce_rest_api.Mongo.Laws.{reference_collection, IsCollection-eq}
use ecommerce_rest_api.Mongo.Unique.{first-hit}
use ecommerce_rest_api.Access.{
  AuthUser, UserSession, is_live_session, step_up_auth, User, Claims, Identity, is_access, is_bad,
  is_live_user, is_revoked, found_user, identify, auth,
}

-- The caller's own session, not revoked and without need of a step-up.
pub record IsTrusted (sessions : List UserSession) (session_id : Option ObjectId) (user : AuthUser)
    : Type 0 where
  pub session : UserSession
  pub named : session_id ≡ some session.id
  pub own : session.user ≡ user.id
  pub live : session.revoked_at ≡ none
  pub calm : session.step_up_required ≡ false
  pub stored : first (is_live_session session.id user.id) sessions ≡ some session

live_facts :
    (id user : ObjectId) (s : UserSession)
    → is_live_session id user s ≡ true
    → (s.id ≡ id) × (s.user ≡ user) × (s.revoked_at ≡ none)
live_facts id user s h = ground arith

passing :
    (sessions : List UserSession) (session_id : Option ObjectId) (user : AuthUser)
    → step_up_auth reference_collection sessions session_id (some user) ≡ ok tt
    → IsTrusted sessions session_id user
unfolding step_up_auth
passing sessions none user h = cc
passing sessions (some id) user h =
    elim (Option-cases (first (is_live_session id user.id) sessions)) [
      | inl gone ↦ absurd (ground arith)
      | inr (s, found) ↦
          let (same, own, live) =
            live_facts id user.id s (first-hit (is_live_session id user.id) sessions s found) in
          record {
            session = s;
            named = ap (λ n. some n) (sym same);
            own = own;
            live = live;
            calm = ground arith;
            stored =
                subst (λ n. first (is_live_session n user.id) sessions ≡ some s) (sym same) found;
          }
    ]

-- The step-up gate fails closed: a request passes only with a user and a session id that names one
-- of that user's own sessions, one that is not revoked and was not flagged at login.
pub step_up_auth-IsTrusted :
    (c : Collection UserSession) (sessions : List UserSession) (session_id : Option ObjectId)
    (user : AuthUser)
    → IsCollection c
    → step_up_auth c sessions session_id (some user) ≡ ok tt
    → IsTrusted sessions session_id user
step_up_auth-IsTrusted c sessions session_id user h =
    subst
      (λ c.
        step_up_auth c sessions session_id (some user) ≡ ok tt → IsTrusted sessions session_id user)
      (sym (IsCollection-eq c h)) (passing sessions session_id user)

-- Whom a request is taken for.
pub record IsIdentified (users : List User) (sessions : List UserSession) (claims : Option Claims)
    (identity : Identity) : Type 0 where
  pub token : Claims
  pub verified : claims ≡ some token
  pub access : is_access token.typ ≡ true
  pub account : User
  pub stored : first (is_live_user token.id) users ≡ some account
  pub role : identity.user.role ≡ account.role
  pub id : identity.user.id ≡ account.id
  pub signed_in : is_revoked reference_collection sessions token.sid token.id ≡ false

abbrev IdentifiedIfOk : List User → List UserSession → Option Claims → Result Identity → Type 0
IdentifiedIfOk users sessions claims (ok identity) = IsIdentified users sessions claims identity
IdentifiedIfOk users sessions claims (err e) = Unit

identified :
    (users : List User) (sessions : List UserSession) (token : Claims)
    → is_access token.typ ≡ true
    → IdentifiedIfOk users sessions
        (some token)
        (identify reference_collection reference_collection users sessions token)
unfolding identify
identified users sessions token access = elim (Option-cases (first (is_live_user token.id) users)) [
  | inl gone ↦ rw (gone, found_user) tt
  | inr (account, found) ↦
      elim (Bool-cases (is_revoked reference_collection sessions token.sid token.id)) [
        | inl out ↦ rw (found, found_user, out) tt
        | inr live ↦
            rw (found, found_user, live)
              (record {
                token = token;
                verified = refl;
                access = access;
                account = account;
                stored = found;
                role = refl;
                id = refl;
                signed_in = live;
              })
      ]
]

authenticated :
    (users : List User) (sessions : List UserSession) (claims : Option Claims)
    → IdentifiedIfOk users sessions claims
        (auth reference_collection reference_collection users sessions claims)
unfolding auth
authenticated users sessions none = tt
authenticated users sessions (some token) = elim (Bool-cases (is_access token.typ)) [
  | inr other ↦ rw other tt
  | inl access ↦ elim (Bool-cases (is_bad token.sid)) [
    | inl bad ↦ rw (access, bad) tt
    | inr good ↦ rw (access, good) (identified users sessions token access)
  ]
]

-- A request that authenticates carries a verified access token of a stored account that is active
-- and not deleted, acts with the role that is stored now, whatever the token was issued for, and
-- its session, if the token names one, has not been signed out.
pub auth-IsIdentified :
    (users : List User) (sessions : List UserSession) (claims : Option Claims) (identity : Identity)
    (cu : Collection User) (cs : Collection UserSession)
    → IsCollection cu
    → IsCollection cs
    → auth cu cs users sessions claims ≡ ok identity
    → IsIdentified users sessions claims identity
auth-IsIdentified users sessions claims identity cu cs hu hs done =
    let same : auth cu cs users sessions claims
        ≡ auth reference_collection reference_collection users sessions claims =
      ap (λ c. auth c cs users sessions claims) (IsCollection-eq cu hu)
      ∙ ap (λ c. auth reference_collection c users sessions claims) (IsCollection-eq cs hs) in
    subst (IdentifiedIfOk users sessions claims) (sym same ∙ done)
      (authenticated users sessions claims)
