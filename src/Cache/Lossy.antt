-- ===== src/Cache/Lossy.antt =====
-- What src/utils/cache.ts promises its callers: a bounded map that may forget.
use ecommerce_rest_api.Base.{
  ℕ, String, ◌+◌, ◌*◌, ◌≤◌, ◌<◌, ◌≡◌, ◌⊎◌, inl, inr, true, false, Option, none, some, [], ◌∷◌,
  subst, if◌then◌else◌, leb, str_eq, length, refl, arith, Bool-cases, str_eq_refl, ap, sym, ◌∙◌,
}
use ecommerce_rest_api.Domain.{Date}
use ecommerce_rest_api.Cache.{
  CacheEntry, Entries, map_get, map_delete, map_set, fetched, get, evict, set, del,
}
use text.Mathlib.Text.{starts_with}
use ecommerce_rest_api.Cache.Eviction.{
  str_eq-cases, map_get-delete_same, map_get-delete_other, evict-length, get-evict, evict-Forgets,
  set-concat,
}

module _ {ℓ} {A : Type ℓ} where
  -- What `get` answers for a key at a time, as a function: all that a caller sees of the entries.
  abbrev pub view : Date → Entries A → String → Option A
  unfolding get
  view now entries key = (get key now entries).0

  abbrev live : Date → Option (CacheEntry A) → Option A
  live now none = none
  live now (some entry) = if leb entry.expires_at now then none else some entry.value

  fetched-live :
      (now : Date) (k : String) (m : Entries A) (o : Option (CacheEntry A))
      → (fetched k now m o).0 ≡ live now o
  fetched-live now k m none = refl
  fetched-live now k m (some x) = elim (Bool-cases (leb x.expires_at now)) [
    | inl h ↦ rw (h) refl
    | inr h ↦ rw (h) refl
  ]

  view-live : (now : Date) (k : String) (m : Entries A) → view now m k ≡ live now (map_get k m)
  unfolding get
  view-live now k m = fetched-live now k m (map_get k m)

  view-Forgets :
      (now : Date) (k : String) (m m' : Entries A)
      → (map_get k m' ≡ map_get k m) ⊎ (map_get k m' ≡ none)
      → (view now m' k ≡ view now m k) ⊎ (view now m' k ≡ none)
  view-Forgets now k m m' (inl e) =
      inl (view-live now k m' ∙ ap (live now) e ∙ sym (view-live now k m))
  view-Forgets now k m m' (inr e) = inr (view-live now k m' ∙ ap (live now) e)

  get-set_other :
      (key k : String) (e : CacheEntry A) (entries : Entries A)
      → str_eq key k ≡ false
      → map_get k (map_set key e entries) ≡ map_get k entries
  get-set_other key k e [] h = rw (h) refl
  get-set_other key k e ((k', e') ∷ entries) h =
      let ih = get-set_other key k e entries h in
      elim (str_eq-cases k' key) [
        | inl e' ↦
            rw
              (
                subst (λ x. str_eq k' x ≡ true) e' (str_eq_refl k'),
                subst (λ x. str_eq x k ≡ false) (sym e') h,
              )
              refl
        | inr e' ↦ ground (arith, ih)
      ]

  -- Storing a value in a cache that may hold at least one entry: the call returns, the cache is
  -- within its bound, the key answers the value until its time is over, and any other key answers
  -- what it did or nothing.
  pub set-Forgets :
      (max_entries : ℕ) (key k : String) (value : A) (ttl_seconds : ℕ) (now at : Date)
      (entries : Entries A)
      → 1 ≤ max_entries
      → at < now + ttl_seconds * 1000
      → str_eq key k ≡ false
      → (kept : Entries A) × (set max_entries key value ttl_seconds now entries ≡ some kept)
        × (length kept ≤ max_entries)
        × (view at kept key ≡ some value)
        × ((view at kept k ≡ view at entries k) ⊎ (view at kept k ≡ none))
  unfolding set
  set-Forgets max_entries key k value ttl_seconds now at entries m t h =
      let entry : CacheEntry A = record { value = value; expires_at = now + ttl_seconds * 1000 } in
      let cleared : Entries A = map_delete key entries in
      let entries' : Entries A = map_set key entry cleared in
      let (kept, returns, bound) =
        evict-length (length entries') max_entries entries' (omega arith) in
      let absent = map_get-delete_same key entries in
      let shape = set-concat key entry cleared absent in
      let found =
        get-evict (length entries') max_entries key entry cleared kept m absent
          (ap (evict (length entries') max_entries) (sym shape) ∙ returns) in
      let other = get-set_other key k entry cleared h ∙ map_get-delete_other key k entries h in
      let forgets = evict-Forgets (length entries') max_entries k entries' kept returns in
      let lasts : leb (now + ttl_seconds * 1000) at ≡ false = ground (arith, t) in
      (
        kept,
        returns,
        bound,
        view-live at key kept ∙ ap (live at) found ∙ rw (lasts) refl,
        view-Forgets at k entries kept (ground (arith, forgets, other)),
      )

  pub map_get-del :
      (prefix k : String) (entries : Entries A)
      → map_get k (del prefix entries) ≡ (if starts_with k prefix then none else map_get k entries)
  unfolding del
  map_get-del prefix k [] = ground arith
  map_get-del prefix k ((k', e) ∷ entries) =
      let ih = map_get-del prefix k entries in
      elim (str_eq-cases k' k) [
        | inl same ↦
            let hit : str_eq k' k ≡ true = subst (λ x. str_eq k' x ≡ true) same (str_eq_refl k') in
            let kin : starts_with k' prefix ≡ starts_with k prefix =
              ap (λ x. starts_with x prefix) same in
            ground (arith, ih)
        | inr other ↦ ground (arith, ih)
      ]

  -- Deleting a prefix takes away the keys that start with it, and no other.
  del-view :
      (prefix k : String) (at : Date) (entries : Entries A)
      → view at (del prefix entries) k ≡ (if starts_with k prefix then none else view at entries k)
  del-view prefix k at entries = elim (Bool-cases (starts_with k prefix)) [
    | inl h ↦
        view-live at k (del prefix entries)
        ∙ ap (live at) (map_get-del prefix k entries)
        ∙ rw (h) refl
    | inr h ↦
        view-live at k (del prefix entries)
        ∙ ap (live at) (map_get-del prefix k entries)
        ∙ rw (h) (sym (view-live at k entries))
  ]
