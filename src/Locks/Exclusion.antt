-- ===== src/Locks/Exclusion.antt =====
-- A lock keeps everybody else out until it expires or its owner lets it go.
use ecommerce_rest_api.Base.{
  ℕ, String, ◌≡◌, ◌+◌, ◌<◌, true, false, Option, none, some, refl, sym, ap, ◌∙◌, Bool-cases, inl,
  inr, arith, str_eq, str_eq_iff, str_eq_refl, ltb,
}
use ecommerce_rest_api.Domain.{Date}
use ecommerce_rest_api.Locks.{Lock, Locks, put, is_held, is_owner, acquire_lock, release_lock}

-- What others do to the table while `lock` is held: anybody asks for any lock before its expiry,
-- and anybody but its owner releases any lock by a token of their own.
pub data Others (lock : Lock) : Locks → Locks → Type 0 where
  quiet : {locks : Locks} → Others lock locks locks
  asked :
      {locks end : Locks} (key : String) (ttl : ℕ) (token : String) (now : Date)
      → now < lock.expires_at
      → Others lock (acquire_lock key ttl token now locks).1 end
      → Others lock locks end
  released :
      {locks end : Locks} (key token : String)
      → str_eq lock.token token ≡ false
      → Others lock (release_lock key token locks).1 end
      → Others lock locks end

asked-held :
    (lock : Lock) (mine key : String) (ttl : ℕ) (token : String) (now : Date) (locks : Locks)
    → now < lock.expires_at
    → locks mine ≡ some lock
    → (acquire_lock key ttl token now locks).1 mine ≡ some lock
unfolding acquire_lock
asked-held lock mine key ttl token now locks early h = elim (Bool-cases (is_held (locks key) now)) [
  | inl held ↦ rw held h
  | inr free ↦ elim (Bool-cases (str_eq mine key)) [
    | inr other ↦ rw (free, other) h
    | inl same ↦
        let e : mine ≡ key = (str_eq_iff mine key).0 same in
        let e' : locks key ≡ some lock = ap locks (sym e) ∙ h in
        let f : is_held (some lock) now ≡ false = rw e' at free in absurd (ground arith)
  ]
]

released-held :
    (lock : Lock) (mine key token : String) (locks : Locks)
    → str_eq lock.token token ≡ false
    → locks mine ≡ some lock
    → (release_lock key token locks).1 mine ≡ some lock
unfolding release_lock
released-held lock mine key token locks foreign h = elim (Bool-cases (is_owner (locks key) token)) [
  | inr not_owner ↦ rw not_owner h
  | inl owner ↦ elim (Bool-cases (str_eq mine key)) [
    | inr other ↦ rw (owner, other) h
    | inl same ↦
        let e : mine ≡ key = (str_eq_iff mine key).0 same in
        let e' : locks key ≡ some lock = ap locks (sym e) ∙ h in
        let f : is_owner (some lock) token ≡ true = rw e' at owner in absurd (ground arith)
  ]
]

still_held :
    (lock : Lock) (mine : String) (locks end : Locks)
    → Others lock locks end
    → locks mine ≡ some lock
    → end mine ≡ some lock
still_held lock mine locks _ quiet h = h
still_held lock mine locks end (asked key ttl token now early rest) h =
    still_held lock mine (acquire_lock key ttl token now locks).1 end rest
      (asked-held lock mine key ttl token now locks early h)
still_held lock mine locks end (released key token foreign rest) h =
    still_held lock mine (release_lock key token locks).1 end rest
      (released-held lock mine key token locks foreign h)

granted :
    (key : String) (ttl : ℕ) (token : String) (now : Date) (locks locks' : Locks) (t : String)
    → acquire_lock key ttl token now locks ≡ (some t, locks')
    → locks' key ≡ some (record { token = token; expires_at = now + ttl })
unfolding acquire_lock
granted key ttl token now locks locks' t e = elim (Bool-cases (is_held (locks key) now)) [
  | inl held ↦
      let refused : Path (Option String × Locks) (none, locks) (some t, locks') = rw held at e in
      let none_some : Path (Option String) none (some t) =
        ap (λ (x : Option String × Locks). x.0) refused in
      cc
  | inr free ↦
      let taken : (
        some token,
        put key (some (record { token = token; expires_at = now + ttl })) locks,
      )
          ≡ (some t, locks') =
        rw free at e in
      let there = ap (λ (x : Option String × Locks). x.1 key) taken in
      sym there ∙ (rw (str_eq_refl key) refl)
]

-- Once a lock is granted, nobody gets it before its expiry, whatever others ask for and release in
-- between, as long as nobody releases by the owner's token.
pub acquire_lock-excludes :
    (key : String) (ttl : ℕ) (token : String) (now : Date) (locks locks' end : Locks) (t : String)
    (ttl' : ℕ) (token' : String) (at : Date)
    → acquire_lock key ttl token now locks ≡ (some t, locks')
    → Others (record { token = token; expires_at = now + ttl }) locks' end
    → at < now + ttl
    → acquire_lock key ttl' token' at end ≡ (none, end)
unfolding acquire_lock
acquire_lock-excludes key ttl token now locks locks' end t ttl' token' at e others early =
    let held =
      still_held (record { token = token; expires_at = now + ttl }) key locks' end others
        (granted key ttl token now locks locks' t e) in
    let busy : ltb at (now + ttl) ≡ true = ground arith in rw (held, is_held, busy) refl
