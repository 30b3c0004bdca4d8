-- ===== src/Streams.antt =====
-- src/infra/sse/streamLimiter.ts. The counters per user are a map, absent for zero; a granted slot is
-- a closure with its own `released` flag, so the limiter's slots are kept in a list and a closure is
-- an index into it.
pub mod Counts
mod Tests
use ecommerce_rest_api.Base.{
  ℕ, suc, zero, ◌+◌, ◌-◌, Bool, true, false, ◌||◌, Option, none, some, List, [], ◌∷◌, ◌++◌,
  if◌then◌else◌, ◌==◌, ltb, leb, get_or, length,
}
use ecommerce_rest_api.Domain.{ObjectId}

pub record StreamLimits : Type 0 where
  pub per_user : ℕ
  pub global : ℕ

pub record Slot : Type 0 where
  pub user : ObjectId
  pub released : Bool

pub record StreamLimiter : Type 0 where
  pub per_user : ObjectId → Option ℕ
  pub total : ℕ
  pub slots : List Slot

unfoldable pub new_limiter : StreamLimiter
new_limiter = record { per_user = λ user. none; total = 0; slots = [] }

abbrev pub put : ObjectId → Option ℕ → (ObjectId → Option ℕ) → ObjectId → Option ℕ
put user count counts u = if u == user then count else counts u

unfoldable pub count_for : ObjectId → StreamLimiter → ℕ
count_for user s = get_or (s.per_user user) 0

-- `null`, or the index of the new slot.
unfoldable pub acquire : StreamLimits → ObjectId → StreamLimiter → Option ℕ × StreamLimiter
unfolding count_for
acquire limits user s =
    let current = count_for user s in
    if leb limits.per_user current || leb limits.global s.total then (none, s) else (
      some (length s.slots),
      record {
        per_user = put user (some (current + 1)) s.per_user;
        total = s.total + 1;
        slots = s.slots ++ (record { user = user; released = false }) ∷ [];
      },
    )

abbrev pub slot_at : ℕ → List Slot → Option Slot
slot_at n [] = none
slot_at zero (x ∷ xs) = some x
slot_at (suc n) (x ∷ xs) = slot_at n xs

abbrev pub mark_released : ℕ → List Slot → List Slot
mark_released n [] = []
mark_released zero (x ∷ xs) = record x { released = true } ∷ xs
mark_released (suc n) (x ∷ xs) = x ∷ mark_released n xs

-- `remaining > 0 ? set : delete`
abbrev pub keep_positive : ℕ → Option ℕ
keep_positive zero = none
keep_positive (suc n) = some (suc n)

abbrev pub release_slot : ℕ → Option Slot → StreamLimiter → StreamLimiter
release_slot n none s = s
release_slot n (some slot) s = if slot.released then s else record {
  per_user = put slot.user (keep_positive (get_or (s.per_user slot.user) 1 - 1)) s.per_user;
  total = s.total - 1;
  slots = mark_released n s.slots;
}

-- A call of the closure that `acquire` returned with the index `n`.
unfoldable pub release : ℕ → StreamLimiter → StreamLimiter
release n s = release_slot n (slot_at n s.slots) s
