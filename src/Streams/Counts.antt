-- ===== src/Streams/Counts.antt =====
-- The counters are what the open slots say, and stay within the limits.
use ecommerce_rest_api.Base.{
  ℕ, suc, zero, ◌≡◌, ◌≤◌, ◌+◌, false, not, ◌&&◌, ◌||◌, Option, none, some, List, [], ◌∷◌, ◌++◌,
  if◌then◌else◌, ◌==◌, leb, get_or, refl, Bool-cases, inl, inr, arith, ==_refl,
}
use ecommerce_rest_api.Domain.{ObjectId}
use ecommerce_rest_api.Streams.{
  new_limiter, StreamLimits, Slot, StreamLimiter, count_for, acquire, slot_at, mark_released,
  release_slot, release,
}

abbrev pub open_slots : List Slot → ℕ
open_slots [] = 0
open_slots (x ∷ xs) = (if x.released then 0 else 1) + open_slots xs

abbrev pub open_slots_of : ObjectId → List Slot → ℕ
open_slots_of u [] = 0
open_slots_of u (x ∷ xs) = (if not x.released && x.user == u then 1 else 0) + open_slots_of u xs

pub record IsCounted (limits : StreamLimits) (s : StreamLimiter) : Type 0 where
  pub total : s.total ≡ open_slots s.slots
  pub users : (u : ObjectId) → get_or (s.per_user u) 0 ≡ open_slots_of u s.slots
  pub within_global : s.total ≤ limits.global
  pub within_user : (u : ObjectId) → get_or (s.per_user u) 0 ≤ limits.per_user

open_slots-concat :
    (xs : List Slot) (x : Slot)
    → open_slots (xs ++ x ∷ []) ≡ open_slots xs + (if x.released then 0 else 1)
open_slots-concat [] x = omega arith
open_slots-concat (y ∷ xs) x = omega (arith, open_slots-concat xs x)

open_slots_of-concat :
    (u : ObjectId) (xs : List Slot) (x : Slot)
    → open_slots_of u (xs ++ x ∷ [])
      ≡ open_slots_of u xs + (if not x.released && x.user == u then 1 else 0)
open_slots_of-concat u [] x = omega arith
open_slots_of-concat u (y ∷ xs) x = omega (arith, open_slots_of-concat u xs x)

open_slots-mark :
    (n : ℕ) (xs : List Slot) (x : Slot)
    → slot_at n xs ≡ some x
    → x.released ≡ false
    → open_slots (mark_released n xs) + 1 ≡ open_slots xs
open_slots-mark n [] x e h = cc
open_slots-mark zero (y ∷ xs) x e h = ground arith
open_slots-mark (suc n) (y ∷ xs) x e h = omega (arith, open_slots-mark n xs x e h)

open_slots_of-mark :
    (u : ObjectId) (n : ℕ) (xs : List Slot) (x : Slot)
    → slot_at n xs ≡ some x
    → x.released ≡ false
    → open_slots_of u (mark_released n xs) + (if x.user == u then 1 else 0) ≡ open_slots_of u xs
open_slots_of-mark u n [] x e h = cc
open_slots_of-mark u zero (y ∷ xs) x e h = ground arith
open_slots_of-mark u (suc n) (y ∷ xs) x e h = omega (arith, open_slots_of-mark u n xs x e h)

-- A granted or refused slot keeps the counters exact and within both limits.
acquire-IsCounted :
    (limits : StreamLimits) (user : ObjectId) (s : StreamLimiter)
    → IsCounted limits s
    → IsCounted limits (acquire limits user s).1
unfolding acquire count_for
acquire-IsCounted limits user s h =
    elim (Bool-cases
      (leb limits.per_user (get_or (s.per_user user) 0) || leb limits.global s.total)) [
        | inl full ↦ rw full h
        | inr room ↦
            let slot : Slot = record { user = user; released = false } in
            rw room (record {
              total = omega (arith, h.total, open_slots-concat s.slots slot);
              users =
                  λ u. ground (arith, h.users u, h.users user, open_slots_of-concat u s.slots slot);
              within_global = ground arith;
              within_user = λ u. ground (arith, h.within_user u);
            })
      ]

release_slot-IsCounted :
    (limits : StreamLimits) (n : ℕ) (found : Option Slot) (s : StreamLimiter)
    → slot_at n s.slots ≡ found
    → IsCounted limits s
    → IsCounted limits (release_slot n found s)
release_slot-IsCounted limits n none s e h = h
release_slot-IsCounted limits n (some slot) s e h = elim (Bool-cases slot.released) [
  | inl done ↦ rw done h
  | inr live ↦
      let one = open_slots-mark n s.slots slot e live in
      let mine = open_slots_of-mark slot.user n s.slots slot e live in
      rw live (record {
        total = omega (arith, h.total, one);
        users = λ u. ground (
          arith,
          h.users u,
          h.users slot.user,
          open_slots_of-mark u n s.slots slot e live,
          mine,
          ==_refl slot.user,
        );
        within_global = omega (arith, h.within_global);
        within_user = λ u. ground (arith, h.within_user u);
      })
]

-- So does closing a slot, however often its closure is called.
release-IsCounted :
    (limits : StreamLimits) (n : ℕ) (s : StreamLimiter)
    → IsCounted limits s
    → IsCounted limits (release n s)
unfolding release
release-IsCounted limits n s h = release_slot-IsCounted limits n (slot_at n s.slots) s refl h

-- What a limiter has been through: slots asked for by anybody, and closures called, in any order and
-- any number of times.
pub data Used (limits : StreamLimits) : StreamLimiter → Type 0 where
  created : Used limits new_limiter
  acquired :
      {s : StreamLimiter} (user : ObjectId) → Used limits s → Used limits (acquire limits user s).1
  released : {s : StreamLimiter} (n : ℕ) → Used limits s → Used limits (release n s)

-- However slots are acquired and released, a released one again too, the limiter's total and every
-- user's count are the numbers of their open slots, and stay within the limits.
pub Used-IsCounted :
    (limits : StreamLimits) (s : StreamLimiter) → Used limits s → IsCounted limits s
unfolding new_limiter
Used-IsCounted limits _ created = record {
  total = refl;
  users = λ u. refl;
  within_global = omega arith;
  within_user = λ u. omega arith;
}
Used-IsCounted limits _ (acquired {s} user used) =
    acquire-IsCounted limits user s (Used-IsCounted limits s used)
Used-IsCounted limits _ (released {s} n used) =
    release-IsCounted limits n s (Used-IsCounted limits s used)
