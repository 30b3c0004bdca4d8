-- ===== src/Frontend/SignOut.antt =====
-- After signing out the client stays signed out until the user signs in.
use ecommerce_rest_api.Base.{
  ◌≤◌, ◌<◌, true, none, some, List, [], ◌∷◌, ◌++◌, ◌≡◌, ◌⊎◌, All, refl, ap, sym, subst, inl, inr,
  arith,
}
use ecommerce_rest_api.Frontend.Session.{
  TabStorage, AuthStatus, clear_session, refresh_token, write_item, refresh_access_token, init,
  logout,
}
use ecommerce_rest_api.Frontend.Network.{
  Request, exchange, sign_in, profile, World, ask_refresh, with_session, Step, submit, load, ask,
  start, greet, know, answer, fail, drop_sign_in, drop_profile, expire, leave, Run, here, later,
}
use ecommerce_rest_api.Frontend.SingleFlight.{All-middle, can_read-write_item}

-- Nobody is signed in, no token is left, and whatever is on its way was sent without one.
pub record IsSignedOut (w : World) : Type 0 where
  pub status : w.session.status ≡ AuthStatus.anonymous
  pub user : w.session.user ≡ none
  pub access : w.session.access ≡ none
  pub stored : refresh_token w.session.storage ≡ none
  pub usable : w.session.storage.can_read ≡ true → w.session.storage.can_write ≡ true
  pub quiet : All (λ r. r ≡ profile none) w.pending

refresh_token-cleared :
    (storage : TabStorage)
    → (storage.can_read ≡ true → storage.can_write ≡ true)
    → refresh_token (write_item none storage) ≡ none
refresh_token-cleared storage usable = ground (arith, usable)

clear_session-IsSignedOut :
    (w : World)
    → (w.session.storage.can_read ≡ true → w.session.storage.can_write ≡ true)
    → All (λ r. r ≡ profile none) w.pending
    → IsSignedOut (with_session (clear_session w.session) w)
unfolding clear_session
clear_session-IsSignedOut w usable quiet = record {
  status = refl;
  user = refl;
  access = refl;
  stored = refresh_token-cleared w.session.storage usable;
  usable = can_read-write_item none w.session.storage usable;
  quiet = quiet;
}

All-without {ℓ κ} :
    {A : Type ℓ} (P : A → Type κ) (xs : List A) (y : A) (ys : List A)
    → All P (xs ++ y ∷ ys)
    → All P (xs ++ ys)
All-without P [] y ys h = h.1
All-without P (x ∷ xs) y ys h = (h.0, All-without P xs y ys h.1)

-- A request on its way from a signed-out client is a profile's load without a token.
IsSignedOut-quiet :
    (w : World) (xs ys : List Request) (r : Request)
    → IsSignedOut w
    → w.pending ≡ xs ++ r ∷ ys
    → r ≡ profile none
IsSignedOut-quiet w xs ys r h e =
    All-middle (λ q. q ≡ profile none) xs r ys (subst (All (λ q. q ≡ profile none)) e h.quiet)

-- A step from there signs nobody in, but may submit a login.
Step-StaysSignedOut :
    (w v : World) → Step w v → IsSignedOut w → IsSignedOut v ⊎ (w.logins < v.logins)
unfolding ask_refresh refresh_access_token init logout
Step-StaysSignedOut w _ submit h = inr (omega arith)
Step-StaysSignedOut w _ load h = inl (record {
  status = h.status;
  user = h.user;
  access = h.access;
  stored = h.stored;
  usable = h.usable;
  quiet = (ap profile h.access, h.quiet);
})
Step-StaysSignedOut w _ start h = inl (
    rw (h.stored) (record {
      status = refl;
      user = h.user;
      access = h.access;
      stored = h.stored;
      usable = h.usable;
      quiet = h.quiet;
    }))
Step-StaysSignedOut w _ ask h = inl (rw (h.stored) h)
Step-StaysSignedOut w _ (greet xs ys tokens risky e new) h =
    absurd (cc (IsSignedOut-quiet w xs ys sign_in h e))
Step-StaysSignedOut w _ (know xs ys token known e) h =
    absurd (cc (IsSignedOut-quiet w xs ys (profile (some token)) h e))
Step-StaysSignedOut w _ (answer xs ys token tokens e new) h =
    absurd (cc (IsSignedOut-quiet w xs ys (exchange token) h e))
Step-StaysSignedOut w _ (fail xs ys token heard e) h =
    absurd (cc (IsSignedOut-quiet w xs ys (exchange token) h e))
Step-StaysSignedOut w _ (drop_sign_in xs ys e) h =
    absurd (cc (IsSignedOut-quiet w xs ys sign_in h e))
Step-StaysSignedOut w _ (drop_profile xs ys token e) h = inl (record {
  status = h.status;
  user = h.user;
  access = h.access;
  stored = h.stored;
  usable = h.usable;
  quiet = All-without _ xs (profile token) ys (subst (All (λ q. q ≡ profile none)) e h.quiet);
})
Step-StaysSignedOut w _ expire h = inl (clear_session-IsSignedOut w h.usable h.quiet)
Step-StaysSignedOut w _ leave h = inl (clear_session-IsSignedOut w h.usable h.quiet)

logins-Step : (w v : World) → Step w v → w.logins ≤ v.logins
unfolding ask_refresh
logins-Step w _ submit = omega arith
logins-Step w _ load = omega arith
logins-Step w _ start = omega arith
logins-Step w _ ask = omega arith
logins-Step w _ (greet xs ys tokens risky e new) = omega arith
logins-Step w _ (know xs ys token known e) = omega arith
logins-Step w _ (answer xs ys token tokens e new) = omega arith
logins-Step w _ (fail xs ys token heard e) = omega arith
logins-Step w _ (drop_sign_in xs ys e) = omega arith
logins-Step w _ (drop_profile xs ys token e) = omega arith
logins-Step w _ expire = omega arith
logins-Step w _ leave = omega arith

logins-Run : (w v : World) → Run w v → w.logins ≤ v.logins
logins-Run w _ here = omega arith
logins-Run w v (later {u} run step) = omega (arith, logins-Run w u run, logins-Step u v step)

Run-StaysSignedOut : (w v : World) → Run w v → IsSignedOut w → IsSignedOut v ⊎ (w.logins < v.logins)
Run-StaysSignedOut w _ here h = inl h
Run-StaysSignedOut w v (later {u} run step) h = elim (Run-StaysSignedOut w u run h) [
  | inl out ↦ elim (Step-StaysSignedOut u v step out) [
    | inl still ↦ inl still
    | inr more ↦ inr (omega (arith, logins-Run w u run))
  ]
  | inr more ↦ inr (omega (arith, logins-Step u v step))
]

-- Once the user has signed out with no request on its way, then whatever is called and answered, the
-- client is anonymous, knows no user, and has no access or refresh token, until a login or
-- registration is submitted. Storage that can be read can be written.
pub leave-StaysSignedOut :
    (w v : World)
    → (w.session.storage.can_read ≡ true → w.session.storage.can_write ≡ true)
    → w.pending ≡ []
    → Run (with_session (logout w.session).1 w) v
    → v.logins ≡ w.logins
    → IsSignedOut v
unfolding logout
leave-StaysSignedOut w v usable idle run same =
    elim (Run-StaysSignedOut (with_session (clear_session w.session) w) v run
      (clear_session-IsSignedOut w usable (subst (All (λ q. q ≡ profile none)) (sym idle) tt))) [
        | inl out ↦ out
        | inr more ↦ absurd (omega arith)
      ]
