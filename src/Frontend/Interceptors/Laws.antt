-- ===== src/Frontend/Interceptors/Laws.antt =====
-- What the client sends, and to whom.
use ecommerce_rest_api.Base.{
  ◌≤◌, String, true, false, Option, none, some, List, [], ◌∷◌, ◌≡◌, refl, ap, arith, length, All,
  Bool-cases, inl, inr,
}
use ecommerce_rest_api.Tokens.{TokenPair}
use ecommerce_rest_api.Frontend.Session.{
  AuthService, AuthStatus, Refreshing, refused, sent, joined, clear_session, is_authenticated,
  refresh_access_token,
}
use ecommerce_rest_api.Frontend.Interceptors.{
  AppSettings, HttpRequest, Thrown, is_unauthorized, is_api_url, authorized, with_headers,
  send_request, can_refresh, on_error, on_refreshed, with_retry, then_retry, auth_interceptor,
}

-- What the requests sent for one call, and the session after it, may be.
pub record IsConfined (settings : AppSettings) (req : HttpRequest) (failure : Thrown)
    (refreshed : Option TokenPair) (s : AuthService) (sent : List HttpRequest) (after : AuthService)
    : Type 0 where
  pub same_url : All (λ r. r.url ≡ req.url) sent
  pub twice : length sent ≤ 2
  pub foreign : is_api_url settings req.url ≡ false → (sent ≡ req ∷ []) × (after ≡ s)
  pub skipped : req.skip_auth ≡ true → All (λ r. r.authorization ≡ req.authorization) sent
  pub retry :
      (first second : HttpRequest)
      → sent ≡ first ∷ second ∷ []
      → (is_unauthorized failure ≡ true)
        × (is_authenticated s ≡ true)
        × ((tokens : TokenPair) × (refreshed ≡ some tokens)
            × (second ≡ with_headers req settings.tenant_id (some tokens.access_token)))
  pub ended :
      can_refresh settings req failure s ≡ true
      → length sent ≡ 1
      → (after.status ≡ AuthStatus.anonymous) × (after.access ≡ none)

authorized-url : (token : Option String) (req : HttpRequest) → (authorized token req).url ≡ req.url
authorized-url none req = refl
authorized-url (some token) req = refl

send_request-url :
    (settings : AppSettings) (req : HttpRequest) (s : AuthService)
    → (send_request settings req s).url ≡ req.url
unfolding send_request
send_request-url settings req s = elim (Bool-cases (is_api_url settings req.url)) [
  | inl api ↦ rw (api) (authorized-url _ req)
  | inr out ↦ rw (out) refl
]

send_request-foreign :
    (settings : AppSettings) (req : HttpRequest) (s : AuthService)
    → is_api_url settings req.url ≡ false
    → send_request settings req s ≡ req
unfolding send_request
send_request-foreign settings req s out = rw (out) refl

send_request-skipped :
    (settings : AppSettings) (req : HttpRequest) (s : AuthService)
    → req.skip_auth ≡ true
    → (send_request settings req s).authorization ≡ req.authorization
unfolding send_request
send_request-skipped settings req s skip = elim (Bool-cases (is_api_url settings req.url)) [
  | inl api ↦ rw (api, skip) refl
  | inr out ↦ rw (out) refl
]

record MayRefresh (settings : AppSettings) (req : HttpRequest) (failure : Thrown) (s : AuthService)
    : Type 0 where
  api : is_api_url settings req.url ≡ true
  wants_auth : req.skip_auth ≡ false
  unauthorized : is_unauthorized failure ≡ true
  authenticated : is_authenticated s ≡ true

can_refresh-MayRefresh :
    (settings : AppSettings) (req : HttpRequest) (failure : Thrown) (s : AuthService)
    → can_refresh settings req failure s ≡ true
    → MayRefresh settings req failure s
unfolding can_refresh
can_refresh-MayRefresh settings req failure s e = record {
  api = ground arith;
  wants_auth = ground arith;
  unauthorized = ground arith;
  authenticated = ground arith;
}

module _ (settings : AppSettings) (req : HttpRequest) (failure : Thrown) (s : AuthService) where
  alone-IsConfined :
      (refreshed : Option TokenPair) (before after : AuthService)
      → (is_api_url settings req.url ≡ false → after ≡ s)
      → (can_refresh settings req failure s ≡ true
          → (after.status ≡ AuthStatus.anonymous) × (after.access ≡ none))
      → IsConfined settings req failure refreshed s (send_request settings req before ∷ []) after
  alone-IsConfined refreshed before after kept over = record {
    same_url = (send_request-url settings req before, tt);
    twice = omega arith;
    foreign = λ out. (ap (λ r. r ∷ []) (send_request-foreign settings req before out), kept out);
    skipped = λ skip. (send_request-skipped settings req before skip, tt);
    retry = λ first second e. absurd cc;
    ended = λ may e. over may;
  }

  refreshed-IsConfined :
      (refreshed : Option TokenPair) (before after : AuthService)
      → MayRefresh settings req failure s
      → (let out =
            with_retry
              (send_request settings req before)
              (on_refreshed settings req refreshed after) in
          IsConfined settings req failure refreshed s out.0 out.1)
  unfolding on_refreshed clear_session
  refreshed-IsConfined none before after may =
      alone-IsConfined none before (clear_session after) (λ out. absurd (cc may.api))
        (λ c. (refl, refl))
  refreshed-IsConfined (some tokens) before after may = record {
    same_url = (send_request-url settings req before, (authorized-url _ req, tt));
    twice = omega arith;
    foreign = λ out. absurd (cc may.api);
    skipped = λ skip. absurd (cc may.wants_auth);
    retry = λ first second e. (may.unauthorized, may.authenticated, (tokens, refl, cc));
    ended = λ c one. absurd (omega arith);
  }

  then_retry-IsConfined :
      (refreshed : Option TokenPair) (before after : AuthService) (what : Refreshing)
      → MayRefresh settings req failure s
      → (let out =
            then_retry settings req refreshed
              (send_request settings req before)
              after
              (some what) in
          IsConfined settings req failure refreshed s out.0 out.1)
  unfolding then_retry on_refreshed clear_session
  then_retry-IsConfined refreshed before after refused may =
      alone-IsConfined refreshed before (clear_session after) (λ out. absurd (cc may.api))
        (λ c. (refl, refl))
  then_retry-IsConfined refreshed before after (sent t) may =
      refreshed-IsConfined refreshed before after may
  then_retry-IsConfined refreshed before after (joined t) may =
      refreshed-IsConfined refreshed before after may

-- Every request that a call sends goes to the call's own address, and there are at most two. An
-- address outside the API gets the call as it is, without tenant or token. A call that skips
-- authentication gets no token. A second request is sent only after a 401 in an authenticated
-- session and a refresh, and bears the new token; a 401 there without a second request leaves nobody
-- signed in.
pub auth_interceptor-IsConfined :
    (settings : AppSettings) (req : HttpRequest) (before : AuthService) (failure : Thrown)
    (refreshed : Option TokenPair) (s : AuthService)
    → (let out = auth_interceptor settings req before failure refreshed s in
        IsConfined settings req failure refreshed s out.0 out.1)
unfolding auth_interceptor on_error then_retry
auth_interceptor-IsConfined settings req before failure refreshed s =
    elim (Bool-cases (can_refresh settings req failure s)) [
      | inl may ↦ rw (may) (
          then_retry-IsConfined settings req failure s refreshed before (refresh_access_token s).1
            (refresh_access_token s).0 (can_refresh-MayRefresh settings req failure s may))
      | inr done ↦ rw (done) (
          alone-IsConfined settings req failure s refreshed before s (λ out. refl)
            (λ may. absurd (cc)))
    ]
