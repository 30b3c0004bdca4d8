-- ===== src/Frontend/SingleFlight.antt =====
-- The client exchanges its refresh tokens one at a time, and none twice.
use ecommerce_rest_api.Base.{
  ◌≤◌, String, true, false, Option, none, some, List, [], ◌∷◌, ◌++◌, ◌≡◌, ◌≢◌, All, refl, ap, sym,
  subst, ◌∙◌, Bool-cases, inl, inr, length, str_eq, arith,
}
use ecommerce_rest_api.Tokens.{TokenPair}
use ecommerce_rest_api.Frontend.Session.{
  TabStorage, AuthService, sent, joined, save, clear_session, non_empty, refresh_token, write_item,
  share, refresh_with, refresh_access_token, init, signed_in, profile_loaded, refresh_answered,
  refresh_failed, logout, resumed,
}
use ecommerce_rest_api.Frontend.Network.{
  Request, exchange, sign_in, profile, World, started, ask_refresh, IsNew, Step, submit, load, ask,
  start, greet, know, answer, fail, drop_sign_in, drop_profile, expire, leave, Run, here, later,
  tab,
}

abbrev pub exchanges : List Request → List String
exchanges [] = []
exchanges (exchange token ∷ rest) = token ∷ exchanges rest
exchanges (sign_in ∷ rest) = exchanges rest
exchanges (profile token ∷ rest) = exchanges rest

abbrev pub at_most_one : Option String → List String
at_most_one none = []
at_most_one (some token) = token ∷ []

record IsSingle (w : World) : Type 0 where
  one : exchanges w.pending ≡ at_most_one w.session.refresh_in_flight
  usable : w.session.storage.can_read ≡ true → w.session.storage.can_write ≡ true
  unspent : (t : String) → refresh_token w.session.storage ≡ some t → All (λ u. u ≢ t) w.exchanged

exchanges-sign_in : (xs ys : List Request) → exchanges (xs ++ sign_in ∷ ys) ≡ exchanges (xs ++ ys)
exchanges-sign_in [] ys = refl
exchanges-sign_in (exchange t ∷ xs) ys = ap (λ r. t ∷ r) (exchanges-sign_in xs ys)
exchanges-sign_in (sign_in ∷ xs) ys = exchanges-sign_in xs ys
exchanges-sign_in (profile t ∷ xs) ys = exchanges-sign_in xs ys

exchanges-profile :
    (xs ys : List Request) (p : Option String)
    → exchanges (xs ++ profile p ∷ ys) ≡ exchanges (xs ++ ys)
exchanges-profile [] ys p = refl
exchanges-profile (exchange t ∷ xs) ys p = ap (λ r. t ∷ r) (exchanges-profile xs ys p)
exchanges-profile (sign_in ∷ xs) ys p = exchanges-profile xs ys p
exchanges-profile (profile t ∷ xs) ys p = exchanges-profile xs ys p

exchanges-some : (xs ys : List Request) (t : String) → exchanges (xs ++ exchange t ∷ ys) ≢ []
exchanges-some [] ys t e = cc
exchanges-some (exchange u ∷ xs) ys t e = cc
exchanges-some (sign_in ∷ xs) ys t e = exchanges-some xs ys t e
exchanges-some (profile p ∷ xs) ys t e = exchanges-some xs ys t e

-- Without its only exchange a list of requests has none.
exchanges-exchange :
    (xs ys : List Request) (t : String) (flight : Option String)
    → exchanges (xs ++ exchange t ∷ ys) ≡ at_most_one flight
    → exchanges (xs ++ ys) ≡ []
exchanges-exchange xs ys t none e = absurd (exchanges-some xs ys t e)
exchanges-exchange [] ys t (some u) e = cc
exchanges-exchange (exchange v ∷ xs) ys t (some u) e = absurd (exchanges-some xs ys t cc)
exchanges-exchange (sign_in ∷ xs) ys t (some u) e = exchanges-exchange xs ys t (some u) e
exchanges-exchange (profile p ∷ xs) ys t (some u) e = exchanges-exchange xs ys t (some u) e

pub All-middle {ℓ κ} :
    {A : Type ℓ} (P : A → Type κ) (xs : List A) (y : A) (ys : List A) → All P (xs ++ y ∷ ys) → P y
All-middle P [] y ys h = h.0
All-middle P (x ∷ xs) y ys h = All-middle P xs y ys h.1

-- Storage that can be read holds what was written last.
pub refresh_token-write_item :
    (item : Option String) (storage : TabStorage) (t : String)
    → (storage.can_read ≡ true → storage.can_write ≡ true)
    → refresh_token (write_item item storage) ≡ some t
    → item ≡ some t
refresh_token-write_item item storage t usable e = elim (Bool-cases storage.can_read) [
  | inl readable ↦ rw (usable readable, readable) at e
  | inr closed ↦ elim (Bool-cases storage.can_write) [
    | inl writable ↦ absurd (ground arith)
    | inr fixed ↦ absurd (ground arith)
  ]
]

pub can_read-write_item :
    (item : Option String) (storage : TabStorage)
    → (storage.can_read ≡ true → storage.can_write ≡ true)
    → (write_item item storage).can_read ≡ true
    → (write_item item storage).can_write ≡ true
can_read-write_item item storage usable e = ground (arith, usable)

-- Every way to ask for a new access token sends an exchange only if none is on its way.
share-IsSingle :
    (w : World) (token : String) (flight : Option String)
    → w.session.refresh_in_flight ≡ flight
    → IsSingle w
    → IsSingle (started (share token flight w.session) w)
share-IsSingle w token none e h = record {
  one = ap (λ r. token ∷ r) (h.one ∙ ap at_most_one e);
  usable = h.usable;
  unspent = h.unspent;
}
share-IsSingle w token (some other) e h = h

refresh_with-IsSingle :
    (w : World) (found : Option String)
    → IsSingle w
    → IsSingle (started (refresh_with found w.session) w)
refresh_with-IsSingle w none h = h
refresh_with-IsSingle w (some token) h = share-IsSingle w token w.session.refresh_in_flight refl h

init-IsSingle : (w : World) → IsSingle w → IsSingle (started (init w.session) w)
unfolding init
init-IsSingle w h = go (non_empty (refresh_token w.session.storage))
  where
    go : (found : Option String) → IsSingle (started (resumed found w.session) w)
    go none = record { one = h.one; usable = h.usable; unspent = h.unspent }
    go (some token) = refresh_with-IsSingle w (some token) h

-- After a pair is saved, its refresh token is what the storage holds.
save-refresh_token :
    (w : World) (tokens : TokenPair)
    → IsSingle w
    → (t : String) → refresh_token (save tokens w.session).storage ≡ some t
    → tokens.refresh_token ≡ t
unfolding save
save-refresh_token w tokens h t e =
    cc (refresh_token-write_item (some tokens.refresh_token) w.session.storage t h.usable e)

save-unspent :
    (w : World) (tokens : TokenPair)
    → IsNew tokens.refresh_token w
    → IsSingle w
    → (t : String) → refresh_token (save tokens w.session).storage ≡ some t
    → All (λ u. u ≢ t) w.exchanged
save-unspent w tokens new h t e =
    subst (λ r. All (λ u. u ≢ r) w.exchanged) (save-refresh_token w tokens h t e) new.unspent

cleared-unspent :
    (w : World)
    → IsSingle w
    → (t : String) → refresh_token (clear_session w.session).storage ≡ some t
    → All (λ u. u ≢ t) w.exchanged
unfolding clear_session
cleared-unspent w h t e = absurd (cc (refresh_token-write_item none w.session.storage t h.usable e))

Step-IsSingle : (w v : World) → Step w v → IsSingle w → IsSingle v
unfolding save clear_session signed_in profile_loaded refresh_answered refresh_failed logout
    refresh_access_token ask_refresh
Step-IsSingle w _ submit h = record { one = h.one; usable = h.usable; unspent = h.unspent }
Step-IsSingle w _ load h = record { one = h.one; usable = h.usable; unspent = h.unspent }
Step-IsSingle w _ start h = init-IsSingle w h
Step-IsSingle w _ ask h = refresh_with-IsSingle w (non_empty (refresh_token w.session.storage)) h
Step-IsSingle w _ (greet xs ys tokens none e new) h = record {
  one = sym (ap exchanges e ∙ exchanges-sign_in xs ys) ∙ h.one;
  usable = can_read-write_item _ _ h.usable;
  unspent = save-unspent w tokens new h;
}
Step-IsSingle w _ (greet xs ys tokens (some risky) e new) h = record {
  one = sym (ap exchanges e ∙ exchanges-sign_in xs ys) ∙ h.one;
  usable = can_read-write_item _ _ h.usable;
  unspent = save-unspent w tokens new h;
}
Step-IsSingle w _ (know xs ys token known e) h = record {
  one = sym (ap exchanges e ∙ exchanges-profile xs ys (some token)) ∙ h.one;
  usable = h.usable;
  unspent = h.unspent;
}
Step-IsSingle w _ (answer xs ys token tokens e new) h = record {
  one = exchanges-exchange xs ys token w.session.refresh_in_flight (sym (ap exchanges e) ∙ h.one);
  usable = can_read-write_item _ _ h.usable;
  unspent = λ t found. (
    λ same.
        All-middle (λ r. r ≢ exchange tokens.refresh_token) xs (exchange token) ys
          (subst (All (λ r. r ≢ exchange tokens.refresh_token)) e new.unsent)
          (ap exchange (same ∙ sym (save-refresh_token w tokens h t found))),
    save-unspent w tokens new h t found,
  );
}
Step-IsSingle w _ (fail xs ys token true e) h = record {
  one = exchanges-exchange xs ys token w.session.refresh_in_flight (sym (ap exchanges e) ∙ h.one);
  usable = can_read-write_item _ _ h.usable;
  unspent = cleared-unspent w h;
}
Step-IsSingle w _ (fail xs ys token false e) h = record {
  one = exchanges-exchange xs ys token w.session.refresh_in_flight (sym (ap exchanges e) ∙ h.one);
  usable = h.usable;
  unspent = h.unspent;
}
Step-IsSingle w _ (drop_sign_in xs ys e) h = record {
  one = sym (ap exchanges e ∙ exchanges-sign_in xs ys) ∙ h.one;
  usable = h.usable;
  unspent = h.unspent;
}
Step-IsSingle w _ (drop_profile xs ys token e) h = record {
  one = sym (ap exchanges e ∙ exchanges-profile xs ys token) ∙ h.one;
  usable = h.usable;
  unspent = h.unspent;
}
Step-IsSingle w _ expire h = record {
  one = h.one;
  usable = can_read-write_item _ _ h.usable;
  unspent = cleared-unspent w h;
}
Step-IsSingle w _ leave h = record {
  one = h.one;
  usable = can_read-write_item _ _ h.usable;
  unspent = cleared-unspent w h;
}

Run-IsSingle : (w v : World) → Run w v → IsSingle w → IsSingle v
Run-IsSingle w _ here h = h
Run-IsSingle w v (later {u} run step) h = Step-IsSingle u v step (Run-IsSingle w u run h)

-- What asking for a new access token can do.
pub record SendsOnce (w : World) : Type 0 where
  pub one : length (exchanges w.pending) ≤ 1
  pub fresh :
      (t : String)
      → (refresh_access_token w.session).0 ≡ sent t
      → (exchanges w.pending ≡ []) × All (λ u. u ≢ t) w.exchanged
  pub shared :
      (t : String) → (refresh_access_token w.session).0 ≡ joined t → exchanges w.pending ≡ t ∷ []

non_empty-some : (o : Option String) (t : String) → non_empty o ≡ some t → o ≡ some t
non_empty-some none t e = e
non_empty-some (some u) t e = elim (Bool-cases (str_eq u "")) [
  | inl empty ↦ absurd (ground arith)
  | inr full ↦ rw (full) at e
]

share-sent :
    (token : String) (flight : Option String) (s : AuthService) (t : String)
    → (share token flight s).0 ≡ sent t
    → (flight ≡ none) × (token ≡ t)
share-sent token none s t e = (refl, cc)
share-sent token (some other) s t e = cc

share-joined :
    (token : String) (flight : Option String) (s : AuthService) (t : String)
    → (share token flight s).0 ≡ joined t
    → flight ≡ some t
share-joined token none s t e = cc
share-joined token (some other) s t e = cc

refresh_with-sent :
    (found : Option String) (s : AuthService) (t : String)
    → (refresh_with found s).0 ≡ sent t
    → (s.refresh_in_flight ≡ none) × (found ≡ some t)
refresh_with-sent none s t e = cc
refresh_with-sent (some token) s t e =
    let (free, same) = share-sent token s.refresh_in_flight s t e in (free, ap some same)

refresh_with-joined :
    (found : Option String) (s : AuthService) (t : String)
    → (refresh_with found s).0 ≡ joined t
    → s.refresh_in_flight ≡ some t
refresh_with-joined none s t e = cc
refresh_with-joined (some token) s t e = share-joined token s.refresh_in_flight s t e

length-at_most_one : (o : Option String) → length (at_most_one o) ≤ 1
length-at_most_one none = omega arith
length-at_most_one (some t) = omega arith

IsSingle-SendsOnce : (w : World) → IsSingle w → SendsOnce w
unfolding refresh_access_token
IsSingle-SendsOnce w h = record {
  one = rw (h.one) (length-at_most_one w.session.refresh_in_flight);
  fresh = λ t e.
      let (free, found) =
        refresh_with-sent (non_empty (refresh_token w.session.storage)) w.session t e in
      (h.one ∙ ap at_most_one free, h.unspent t (non_empty-some _ t found));
  shared = λ t e. h.one ∙ ap at_most_one (refresh_with-joined _ w.session t e);
}

-- Whatever calls and answers a tab has been through, in any order: at most one exchange of a refresh
-- token is on its way; asking for an access token sends another only when none is, and for a token
-- that no exchange has spent; otherwise it waits for the one on its way. The server's refresh tokens
-- are new, and storage that can be read can be written.
pub Run-SendsOnce :
    (storage : TabStorage)
    → (storage.can_read ≡ true → storage.can_write ≡ true)
    → (w : World) → Run (tab storage) w
    → SendsOnce w
Run-SendsOnce storage usable w run =
    IsSingle-SendsOnce w (
      Run-IsSingle (tab storage) w run
        (record { one = refl; usable = usable; unspent = λ t e. tt }))
