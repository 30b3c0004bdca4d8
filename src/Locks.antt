-- ===== src/Locks.antt =====
-- src/infra/locks/distributedLock.ts: the process-local lock table, a map from keys to locks. A
-- token is what `crypto.randomUUID` returns, so it is an argument.
pub mod Exclusion
mod Tests
use ecommerce_rest_api.Base.{
  ℕ, String, ◌+◌, Bool, true, false, Option, none, some, if◌then◌else◌, ltb, str_eq,
}
use ecommerce_rest_api.Domain.{Date}
use ecommerce_rest_api.Errors.{Result, ok, err, locked_error}

pub record Lock : Type 0 where
  pub token : String
  pub expires_at : Date

abbrev pub Locks : Type 0
Locks = String → Option Lock

-- `locks.set(key, …)` and `locks.delete(key)`.
abbrev pub put : String → Option Lock → Locks → Locks
put key lock locks k = if str_eq k key then lock else locks k

abbrev pub is_held : Option Lock → Date → Bool
is_held none now = false
is_held (some lock) now = ltb now lock.expires_at

unfoldable pub acquire_lock : String → ℕ → String → Date → Locks → Option String × Locks
acquire_lock key ttl token now locks =
    if is_held (locks key) now
    then (none, locks)
    else (some token, put key (some (record { token = token; expires_at = now + ttl })) locks)

abbrev pub is_owner : Option Lock → String → Bool
is_owner none token = false
is_owner (some lock) token = str_eq lock.token token

unfoldable pub release_lock : String → String → Locks → Bool × Locks
release_lock key token locks =
    if is_owner (locks key) token then (true, put key none locks) else (false, locks)

abbrev locked {ℓ} :
    {A : Type ℓ} → String → (Locks → Result A × Locks) → Option String × Locks → Result A × Locks
unfolding release_lock
locked key fn (none, locks) = (err (locked_error "Resource is locked"), locks)
locked key fn (some token, locks) =
    let (result, locks') = fn locks in (result, (release_lock key token locks').1)

-- `fn` may use the table too; the `finally` runs whether it succeeds or fails.
unfoldable pub with_distributed_lock {ℓ} :
    {A : Type ℓ}
    → String
    → ℕ
    → String
    → Date
    → (Locks → Result A × Locks)
    → Locks
    → Result A × Locks
unfolding acquire_lock locked
with_distributed_lock key ttl token now fn locks =
    locked key fn (acquire_lock key ttl token now locks)
