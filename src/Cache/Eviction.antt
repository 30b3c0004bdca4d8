-- ===== src/Cache/Eviction.antt =====
-- The entries of src/utils/cache.ts: what removing, setting and evicting leave of each key.
use ecommerce_rest_api.Base.{
  ℕ, suc, zero, String, ◌+◌, ◌≤◌, ◌<◌, ◌≡◌, ◌⊎◌, inl, inr, true, false, none, some, [], ◌∷◌, ◌++◌,
  subst, ltb, str_eq, length, refl, arith, Bool-cases, str_eq_refl, str_eq_iff, ap, sym, ◌∙◌,
}
use ecommerce_rest_api.Cache.{CacheEntry, Entries, map_get, map_delete, map_set, drop_oldest, evict}

pub str_eq-cases : (a b : String) → (a ≡ b) ⊎ (str_eq a b ≡ false)
str_eq-cases a b = elim (Bool-cases (str_eq a b)) [
  | inl e ↦ inl ((str_eq_iff a b).0 e)
  | inr e ↦ inr e
]

module _ {ℓ} {A : Type ℓ} where
  pub map_get-delete_same :
      (key : String) (entries : Entries A) → map_get key (map_delete key entries) ≡ none
  map_get-delete_same key [] = refl
  map_get-delete_same key ((k, e) ∷ entries) = ground (arith, map_get-delete_same key entries)

  pub map_get-delete_other :
      (key k : String) (entries : Entries A)
      → str_eq key k ≡ false
      → map_get k (map_delete key entries) ≡ map_get k entries
  map_get-delete_other key k [] h = refl
  map_get-delete_other key k ((k', e) ∷ entries) h =
      let ih = map_get-delete_other key k entries h in
      elim (str_eq-cases k' key) [
        | inl e' ↦
            rw
              (
                subst (λ x. str_eq k' x ≡ true) e' (str_eq_refl k'),
                subst (λ x. str_eq x k ≡ false) (sym e') h,
              )
              ih
        | inr e' ↦ ground (arith, ih)
      ]

  length-delete :
      (key : String) (entries : Entries A) → length (map_delete key entries) ≤ length entries
  length-delete key [] = omega arith
  length-delete key ((k, e) ∷ entries) = ground (arith, length-delete key entries)

  length-drop_oldest :
      (entries : Entries A) → 1 ≤ length entries → length (drop_oldest entries) < length entries
  length-drop_oldest [] h = omega arith
  length-drop_oldest ((k, e) ∷ entries) h =
      rw (str_eq_refl k) omega (arith, length-delete k entries)

  -- The `while` of `set` ends with at most `max_entries` entries, once the fuel covers the excess.
  pub evict-length :
      (fuel max_entries : ℕ) (entries : Entries A)
      → length entries ≤ fuel + max_entries
      → (kept : Entries A) × (evict fuel max_entries entries ≡ some kept)
        × (length kept ≤ max_entries)
  unfolding evict
  evict-length zero max_entries entries h = (entries, ground arith, omega arith)
  evict-length (suc fuel) max_entries entries h =
      let ih = evict-length fuel max_entries (drop_oldest entries) in
      elim (Bool-cases (ltb max_entries (length entries))) [
        | inl more ↦
            let less = length-drop_oldest entries (ground (arith, more)) in
            rw (more) (ih (ground (arith, more, less)))
        | inr done ↦ (entries, ground (arith, done), ground (arith, done))
      ]

  delete-concat :
      (k key : String) (e : CacheEntry A) (entries : Entries A)
      → str_eq key k ≡ false
      → map_delete k (entries ++ (key, e) ∷ []) ≡ map_delete k entries ++ (key, e) ∷ []
  delete-concat k key e [] h = rw (h) refl
  delete-concat k key e ((k', e') ∷ entries) h = ground (arith, delete-concat k key e entries h)

  get-concat :
      (key : String) (e : CacheEntry A) (entries : Entries A)
      → map_get key entries ≡ none
      → map_get key (entries ++ (key, e) ∷ []) ≡ some e
  get-concat key e [] h = rw (str_eq_refl key) refl
  get-concat key e ((k, e') ∷ entries) h = ground (arith, get-concat key e entries)

  pub set-concat :
      (key : String) (e : CacheEntry A) (entries : Entries A)
      → map_get key entries ≡ none
      → map_set key e entries ≡ entries ++ (key, e) ∷ []
  set-concat key e [] h = refl
  set-concat key e ((k, e') ∷ entries) h = ground (arith, set-concat key e entries)

  length-concat :
      (x : String × CacheEntry A) (entries : Entries A)
      → length (entries ++ x ∷ []) ≡ suc (length entries)
  length-concat x [] = refl
  length-concat x (y ∷ entries) = ap suc (length-concat x entries)

  evict-more :
      (fuel max_entries : ℕ) (entries : Entries A)
      → ltb max_entries (length entries) ≡ true
      → evict (suc fuel) max_entries entries ≡ evict fuel max_entries (drop_oldest entries)
  unfolding evict
  evict-more fuel max_entries entries h = rw (h) refl

  evict-done :
      (fuel max_entries : ℕ) (entries kept : Entries A)
      → ltb max_entries (length entries) ≡ false
      → evict fuel max_entries entries ≡ some kept
      → entries ≡ kept
  unfolding evict
  evict-done zero max_entries entries kept h r = ground (arith, h, r)
  evict-done (suc fuel) max_entries entries kept h r = ground (arith, h, r)

  -- An eviction never takes the entry that was set last.
  pub get-evict :
      (fuel max_entries : ℕ) (key : String) (e : CacheEntry A) (entries kept : Entries A)
      → 1 ≤ max_entries
      → map_get key entries ≡ none
      → evict fuel max_entries (entries ++ (key, e) ∷ []) ≡ some kept
      → map_get key kept ≡ some e
  unfolding evict
  get-evict zero max_entries key e entries kept m h r =
      let found = get-concat key e entries h in ground (arith, found)
  get-evict (suc fuel) max_entries key e [] kept m h r =
      let found = get-concat key e [] h in ground (arith, found)
  get-evict (suc fuel) max_entries key e ((k, e') ∷ entries) kept m h r =
      let found = get-concat key e ((k, e') ∷ entries) h in
      let other : str_eq k key ≡ false = ground (arith, h) in
      let absent : map_get key (map_delete k entries) ≡ none =
        map_get-delete_other k key entries other ∙ ground (arith, h) in
      let ih = get-evict fuel max_entries key e (map_delete k entries) kept m absent in
      let differs : str_eq key k ≡ false = elim (str_eq-cases key k) [
        | inl same ↦
            subst (λ x. str_eq x k ≡ false) (sym same) (subst (λ x. str_eq k x ≡ false) same other)
        | inr differs ↦ differs
      ] in
      let step : map_delete k ((k, e') ∷ entries ++ (key, e) ∷ [])
          ≡ map_delete k entries ++ (key, e) ∷ [] =
        rw (str_eq_refl k) (delete-concat k key e entries differs) in
      let all : Entries A = (k, e') ∷ entries ++ (key, e) ∷ [] in
      elim (Bool-cases (ltb max_entries (length all))) [
        | inl more ↦ ih (
            ap (evict fuel max_entries) (sym step) ∙ sym (evict-more fuel max_entries all more) ∙ r)
        | inr done ↦
            let same : all ≡ kept = evict-done (suc fuel) max_entries all kept done r in
            ap (map_get key) (sym same) ∙ found
      ]

  drop_oldest-Forgets :
      (k : String) (entries : Entries A)
      → (map_get k (drop_oldest entries) ≡ map_get k entries)
        ⊎ (map_get k (drop_oldest entries) ≡ none)
  drop_oldest-Forgets k [] = inl refl
  drop_oldest-Forgets k ((k', e) ∷ entries) = elim (str_eq-cases k' k) [
    | inl same ↦ inr (
        subst (λ x. map_get k (map_delete x ((k', e) ∷ entries)) ≡ none) (sym same)
          (map_get-delete_same k ((k', e) ∷ entries)))
    | inr other ↦ inl (map_get-delete_other k' k ((k', e) ∷ entries) other)
  ]

  -- An eviction changes no other entry: a key keeps its entry or has none.
  pub evict-Forgets :
      (fuel max_entries : ℕ) (k : String) (entries kept : Entries A)
      → evict fuel max_entries entries ≡ some kept
      → (map_get k kept ≡ map_get k entries) ⊎ (map_get k kept ≡ none)
  unfolding evict
  evict-Forgets zero max_entries k entries kept r = inl (ground (arith, r))
  evict-Forgets (suc fuel) max_entries k entries kept r =
      let ih = evict-Forgets fuel max_entries k (drop_oldest entries) kept in
      let one = drop_oldest-Forgets k entries in
      elim (Bool-cases (ltb max_entries (length entries))) [
        | inl more ↦
            let two = ih (sym (evict-more fuel max_entries entries more) ∙ r) in
            ground (arith, one, two)
        | inr done ↦ inl (ground (arith, done, r))
      ]
