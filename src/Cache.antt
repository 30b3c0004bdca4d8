-- ===== src/Cache.antt =====
-- src/utils/cache.ts. A JavaScript Map iterates in insertion order, so `memoryCache` is a list of
-- keys and entries with the oldest first; the clock and `CACHE_MAX_ENTRIES` are arguments.
pub mod Eviction
pub mod Lossy
mod Tests
use ecommerce_rest_api.Base.{
  ℕ, suc, zero, String, ◌+◌, ◌*◌, Bool, Option, none, some, List, [], ◌∷◌, if◌then◌else◌, ltb, leb,
  str_eq, length,
}
use ecommerce_rest_api.Domain.{Date}
use text.Mathlib.Text.{starts_with}

pub record CacheEntry {ℓ} (A : Type ℓ) : Type ℓ where
  pub value : A
  pub expires_at : Date

abbrev pub Entries {ℓ} : Type ℓ → Type ℓ
Entries A = List (String × CacheEntry A)

module _ {ℓ} {A : Type ℓ} where
  abbrev pub map_get : String → Entries A → Option (CacheEntry A)
  map_get key [] = none
  map_get key ((k, entry) ∷ entries) = if str_eq k key then some entry else map_get key entries

  abbrev pub map_delete : String → Entries A → Entries A
  map_delete key [] = []
  map_delete key ((k, entry) ∷ entries) =
      let rest = map_delete key entries in if str_eq k key then rest else (k, entry) ∷ rest

  -- `Map.set` leaves a key that is present in its place.
  abbrev pub map_set : String → CacheEntry A → Entries A → Entries A
  map_set key entry [] = (key, entry) ∷ []
  map_set key entry ((k, e) ∷ entries) =
      let rest = map_set key entry entries in
      if str_eq k key then (k, entry) ∷ entries else (k, e) ∷ rest

  abbrev pub fetched : String → Date → Entries A → Option (CacheEntry A) → Option A × Entries A
  fetched key now entries none = (none, entries)
  fetched key now entries (some entry) =
      if leb entry.expires_at now
      then (none, map_delete key entries)
      else (some entry.value, map_set key entry (map_delete key entries))

  unfoldable pub get : String → Date → Entries A → Option A × Entries A
  get key now entries = fetched key now entries (map_get key entries)

  -- One turn of the `while`: the oldest key goes.
  abbrev pub drop_oldest : Entries A → Entries A
  drop_oldest [] = []
  drop_oldest ((k, entry) ∷ entries) = map_delete k ((k, entry) ∷ entries)

  -- The `while` of `set`; `none` is a loop that has not ended within the fuel.
  unfoldable pub evict : ℕ → ℕ → Entries A → Option (Entries A)
  evict zero max_entries entries = if ltb max_entries (length entries) then none else some entries
  evict (suc fuel) max_entries entries =
      let rest = evict fuel max_entries (drop_oldest entries) in
      if ltb max_entries (length entries) then rest else some entries

  -- A turn removes at least one entry, so the number of entries is fuel enough.
  unfoldable pub set : ℕ → String → A → ℕ → Date → Entries A → Option (Entries A)
  unfolding evict
  set max_entries key value ttl_seconds now entries =
      let entry : CacheEntry A = record { value = value; expires_at = now + ttl_seconds * 1000 } in
      let entries' : Entries A = map_set key entry (map_delete key entries) in
      evict (length entries') max_entries entries'

  unfoldable pub del : String → Entries A → Entries A
  del prefix [] = []
  del prefix ((k, entry) ∷ entries) =
      let rest = del prefix entries in if starts_with k prefix then rest else (k, entry) ∷ rest
