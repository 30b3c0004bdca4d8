-- ===== src/Frontend/Tests.antt =====
-- Runs of the client, and witnesses: a session restored from the tab's token, and what a refresh on
-- its way does to a client that signs out meanwhile.
use ecommerce_rest_api.Base.{
  subst, str_eq, str_eq_refl, String, ◌≢◌, ◌≡◌, true, false, some, none, [], ◌∷◌, refl,
}
use ecommerce_rest_api.Domain.{Role}
use ecommerce_rest_api.Tokens.{TokenPair}
use ecommerce_rest_api.Frontend.Session.{
  Profile, TabStorage, AuthStatus, AuthService, is_authenticated, logout, refresh_answered,
  refresh_access_token, init, save, clear_session, profile_loaded, sent,
}
use ecommerce_rest_api.Frontend.Network.{
  World, load, ask, start, know, answer, drop_profile, leave, Run, here, later, tab, with_session,
  ask_refresh,
}
use ecommerce_rest_api.Frontend.Interceptors.{
  AppSettings, HttpRequest, Thrown, http_error, api_failure, auth_interceptor, then_retry,
  send_request, on_error, on_refreshed, can_refresh, is_api_url, error_interceptor, from_error,
}
use ecommerce_rest_api.Frontend.Interceptors.Laws.{IsConfined, auth_interceptor-IsConfined}
use ecommerce_rest_api.Frontend.RecentlyViewed.{opened, read, record_view}
use ecommerce_rest_api.Frontend.SingleFlight.{SendsOnce, Run-SendsOnce}
use ecommerce_rest_api.Frontend.SignOut.{IsSignedOut, leave-StaysSignedOut}

abbrev kept : TabStorage
kept = record { can_read = true; can_write = true; item = some "r1" }

abbrev renewed : TokenPair
renewed = record { access_token = "a2"; refresh_token = "r2" }

abbrev buyer : Profile
buyer = record { id = 7; role = Role.user }

r1_new : ◌≢◌ {A = String} "r1" "r2"
r1_new e = cc (subst (λ t. str_eq "r1" t ≡ true) e (str_eq_refl "r1"))

-- The startup exchanges r1, a page asks for a token meanwhile, and the profile comes.
restored : (w : World) × Run (tab kept) w
unfolding init ask_refresh refresh_access_token refresh_answered save
restored = (
  _,
  later
      (later
        (later (later (later here start) ask) (
          answer [] [] "r1" renewed refl
            (record { unspent = tt; unsent = ((λ e. r1_new cc), tt) })))
        load)
      (know [] [] "a2" buyer refl),
)

Run-SendsOnce_example : SendsOnce restored.0
Run-SendsOnce_example = Run-SendsOnce kept (λ e. refl) restored.0 restored.1

restored_token : (refresh_access_token restored.0.session).0 ≡ sent "r2"
unfolding restored init ask_refresh refresh_access_token refresh_answered save profile_loaded
restored_token = refl

-- Signing out and asking for a token after that.
signed_out : (w : World) × Run (with_session (logout restored.0.session).1 restored.0) w
unfolding restored init ask_refresh refresh_access_token refresh_answered save profile_loaded logout
    clear_session
signed_out = (_, later (later (later here ask) load) (drop_profile [] [] none refl))

leave-StaysSignedOut_example : IsSignedOut signed_out.0
unfolding signed_out restored init ask_refresh refresh_access_token refresh_answered save
    profile_loaded logout clear_session
leave-StaysSignedOut_example =
    leave-StaysSignedOut restored.0 signed_out.0 (λ e. refl) refl signed_out.1 refl

-- An exchange that is answered after the user has signed out saves its tokens: a client that shows
-- nobody holds a refresh token, which the next start of the tab exchanges.
resurrected :
    (w : World) × Run (tab kept) w
    × (w.session.status ≡ AuthStatus.anonymous)
    × (w.session.storage.item ≡ some "r2")
unfolding init ask_refresh refresh_access_token refresh_answered save logout clear_session
resurrected = (
  _,
  later (later (later here start) leave)
      (answer [] [] "r1" renewed refl (record { unspent = tt; unsent = ((λ e. r1_new cc), tt) })),
  refl,
  refl,
)

abbrev shop : AppSettings
shop = record { api_base_url = "https://shop/api"; tenant_id = "shop" }

abbrev get_orders : HttpRequest
get_orders = record {
  url = "https://shop/api/orders";
  tenant_id = none;
  authorization = none;
  skip_auth = false;
  skip_error_toast = false;
}

abbrev expired : Thrown
expired = http_error 401 (api_failure "UNAUTHORIZED" "Token expired" none)

-- A signed-in client whose access token has expired.
abbrev stale : AuthService
stale = record {
  access = some "a1";
  storage = kept;
  user = some buyer;
  status = AuthStatus.authenticated;
  step_up_required = false;
  refresh_in_flight = none;
}

retried_once :
    (auth_interceptor shop get_orders stale expired (some renewed) stale).0
    ≡ record get_orders { tenant_id = some "shop"; authorization = some "Bearer a1" }
      ∷ record get_orders { tenant_id = some "shop"; authorization = some "Bearer a2" }
      ∷ []
unfolding auth_interceptor then_retry send_request on_error on_refreshed can_refresh is_api_url
    is_authenticated refresh_access_token
retried_once = refl

auth_interceptor-IsConfined_example :
    (let out = auth_interceptor shop get_orders stale expired (some renewed) stale in
      IsConfined shop get_orders expired (some renewed) stale out.0 out.1)
auth_interceptor-IsConfined_example =
    auth_interceptor-IsConfined shop get_orders stale expired (some renewed) stale

toast :
    (error_interceptor get_orders (http_error 500 (api_failure "INTERNAL" "at pool.ts:12" none))).1
    ≡ some "The service is temporarily unavailable. Please try again shortly."
unfolding error_interceptor from_error
toast = refl

opened_again : (opened (3 ∷ 5 ∷ 3 ∷ []) (read true [])).ids ≡ 3 ∷ 5 ∷ []
unfolding opened record_view read
opened_again = refl
