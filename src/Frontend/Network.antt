-- ===== src/Frontend/Network.antt =====
-- The client with its requests to the authentication endpoints on their way, in any interleaving of
-- calls and answers.
use ecommerce_rest_api.Base.{
  ℕ, suc, String, Bool, false, Option, none, some, List, [], ◌∷◌, ◌++◌, ◌≡◌, ◌≢◌, All,
}
use ecommerce_rest_api.Tokens.{TokenPair}
use ecommerce_rest_api.Frontend.Session.{
  Profile, TabStorage, AuthService, AuthStatus, Refreshing, refused, sent, joined, signed_in,
  profile_loaded, refresh_access_token, refresh_answered, refresh_failed, clear_session, logout,
  init,
}

-- An exchange of a refresh token, a login or registration, and a profile's load with the access
-- token that it was sent with.
pub data Request : Type 0 where
  exchange : String → Request
  sign_in : Request
  profile : Option String → Request

-- `exchanged`: the refresh tokens that the server has answered with a new pair.
-- `logins`: how often the user has submitted a login or registration.
pub record World : Type 0 where
  pub session : AuthService
  pub pending : List Request
  pub exchanged : List String
  pub logins : ℕ

abbrev pub send : Refreshing → List Request → List Request
send refused pending = pending
send (sent token) pending = exchange token ∷ pending
send (joined _) pending = pending

abbrev pub started : Refreshing × AuthService → World → World
started (what, s) w = record w { session = s; pending = send what w.pending }

unfoldable pub ask_refresh : World → World
ask_refresh w = started (refresh_access_token w.session) w

abbrev pub with_session : AuthService → World → World
with_session s w = record w { session = s }

-- No request or answer had this refresh token before.
pub record IsNew (token : String) (w : World) : Type 0 where
  pub unspent : All (λ t. t ≢ token) w.exchanged
  pub unsent : All (λ r. r ≢ exchange token) w.pending

pub data Step (w : World) : World → Type 0 where
  -- `login` and `register` are called.
  submit : Step w (record w { pending = sign_in ∷ w.pending; logins = suc w.logins })
  -- `loadProfile` is called, by whatever follows a sign-in or the startup.
  load : Step w (record w { pending = profile w.session.access ∷ w.pending })
  -- `init`
  start : Step w (started (init w.session) w)
  -- A 401 asks for a new access token.
  ask : Step w (ask_refresh w)
  greet :
      (before after : List Request) (tokens : TokenPair) (risky : Option Bool)
      → w.pending ≡ before ++ sign_in ∷ after
      → IsNew tokens.refresh_token w
      → Step w (record w { session = signed_in tokens risky w.session; pending = before ++ after })
  -- The server tells a profile only to a request with an access token.
  know :
      (before after : List Request) (token : String) (known : Profile)
      → w.pending ≡ before ++ profile (some token) ∷ after
      → Step w (record w { session = profile_loaded known w.session; pending = before ++ after })
  answer :
      (before after : List Request) (token : String) (tokens : TokenPair)
      → w.pending ≡ before ++ exchange token ∷ after
      → IsNew tokens.refresh_token w
      → Step w (record w {
        session = refresh_answered tokens w.session;
        pending = before ++ after;
        exchanged = token ∷ w.exchanged;
      })
  -- The flag: whether a caller still listens.
  fail :
      (before after : List Request) (token : String) (heard : Bool)
      → w.pending ≡ before ++ exchange token ∷ after
      → Step w (record w { session = refresh_failed heard w.session; pending = before ++ after })
  -- A login, registration or profile's load fails.
  drop_sign_in :
      (before after : List Request)
      → w.pending ≡ before ++ sign_in ∷ after
      → Step w (record w { pending = before ++ after })
  drop_profile :
      (before after : List Request) (token : Option String)
      → w.pending ≡ before ++ profile token ∷ after
      → Step w (record w { pending = before ++ after })
  -- `sessionExpired`, or the end of a failed `init`.
  expire : Step w (with_session (clear_session w.session) w)
  leave : Step w (with_session (logout w.session).1 w)

-- A run of the client from one state to another.
pub data Run (w : World) : World → Type 0 where
  here : Run w w
  later : {u v : World} → Run w u → Step u v → Run w v

-- The tab at startup, whatever its storage holds.
abbrev pub tab : TabStorage → World
tab storage = record {
  session = record {
    access = none;
    storage = storage;
    user = none;
    status = AuthStatus.initializing;
    step_up_required = false;
    refresh_in_flight = none;
  };
  pending = [];
  exchanged = [];
  logins = 0;
}
