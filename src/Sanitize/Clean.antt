-- ===== src/Sanitize/Clean.antt =====
-- What sanitizing leaves: nothing forbidden, and everything else.
use ecommerce_rest_api.Base.{
  String, ◌≡◌, Bool, true, false, not, ◌&&◌, ◌||◌, refl, sym, ap, ◌∙◌, ◌↔◌, arith, Bool-cases, inl,
  inr,
}
use ecommerce_rest_api.Sanitize.{
  Json, null, boolean, number, string, array, object, Items, nil, cons, Fields, end, field,
  is_forbidden, is_control, without_controls, sanitize_value, sanitize_items, sanitize_fields,
  left_behind, has_unsafe_key, some_unsafe, unsafe_fields, is_operator,
}
use Prim.Native.String as Text

abbrev no_controls : String → Bool
no_controls Text.[] = true
no_controls (Text.◌∷◌ c s) = not (is_control c) && no_controls s

-- No forbidden key and no text value with a control character, at any depth.
unfoldable mutual
  pub is_clean : Json → Bool
  is_clean (string s) = no_controls s
  is_clean (array items) = clean_items items
  is_clean (object fields) = clean_fields fields
  is_clean null = true
  is_clean (boolean b) = true
  is_clean (number n) = true

  pub clean_items : Items → Bool
  clean_items nil = true
  clean_items (cons v items) = is_clean v && clean_items items

  pub clean_fields : Fields → Bool
  clean_fields end = true
  clean_fields (field key v fields) = not (is_forbidden key) && is_clean v && clean_fields fields

without_controls-clean : (s : String) → no_controls (without_controls s) ≡ true
without_controls-clean Text.[] = refl
without_controls-clean (Text.◌∷◌ c s) = ground (arith, without_controls-clean s)

without_controls-id : (s : String) → no_controls s ≡ true → without_controls s ≡ s
without_controls-id Text.[] h = refl
without_controls-id (Text.◌∷◌ c s) h =
    let ih = without_controls-id s (ground (arith, h)) in
    let keep : is_control c ≡ false = ground (arith, h) in rw (keep) (ap (Text.◌∷◌ c) ih)

mutual
  unfolding is_clean sanitize_value

  value-clean : (v : Json) → is_clean (sanitize_value v) ≡ true
  value-clean (string s) = without_controls-clean s
  value-clean (array items) = items-clean items
  value-clean (object fields) = fields-clean fields
  value-clean null = refl
  value-clean (boolean b) = refl
  value-clean (number n) = refl

  items-clean : (items : Items) → clean_items (sanitize_items items) ≡ true
  items-clean nil = refl
  items-clean (cons v items) = ground (arith, value-clean v, items-clean items)

  fields-clean : (fields : Fields) → clean_fields (sanitize_fields fields) ≡ true
  fields-clean end = refl
  fields-clean (field key v fields) = ground (arith, value-clean v, fields-clean fields)

mutual
  unfolding is_clean sanitize_value

  value-id : (v : Json) → is_clean v ≡ true → sanitize_value v ≡ v
  value-id (string s) h = ap string (without_controls-id s h)
  value-id (array items) h = ap array (items-id items h)
  value-id (object fields) h = ap object (fields-id fields h)
  value-id null h = refl
  value-id (boolean b) h = refl
  value-id (number n) h = refl

  items-id : (items : Items) → clean_items items ≡ true → sanitize_items items ≡ items
  items-id nil h = refl
  items-id (cons v items) h =
      let one = value-id v (ground (arith, h)) in
      let rest = items-id items (ground (arith, h)) in rw (one, rest) refl

  fields-id : (fields : Fields) → clean_fields fields ≡ true → sanitize_fields fields ≡ fields
  fields-id end h = refl
  fields-id (field key v fields) h =
      let one = value-id v (ground (arith, h)) in
      let rest = fields-id fields (ground (arith, h)) in
      let allowed : is_forbidden key ≡ false = ground (arith, h) in rw (allowed, one, rest) refl

mutual
  unfolding has_unsafe_key sanitize_value

  value-safe : (v : Json) → has_unsafe_key v ≡ false → has_unsafe_key (sanitize_value v) ≡ false
  value-safe (array items) h = items-safe items h
  value-safe (object fields) h = fields-safe fields h
  value-safe (string s) h = refl
  value-safe null h = refl
  value-safe (boolean b) h = refl
  value-safe (number n) h = refl

  items-safe :
      (items : Items) → some_unsafe items ≡ false → some_unsafe (sanitize_items items) ≡ false
  items-safe nil h = refl
  items-safe (cons v items) h =
      let one = value-safe v (ground (arith, h)) in
      let rest = items-safe items (ground (arith, h)) in rw (one, rest) refl

  fields-safe :
      (fields : Fields)
      → unsafe_fields fields ≡ false
      → unsafe_fields (sanitize_fields fields) ≡ false
  fields-safe end h = refl
  fields-safe (field key v fields) h =
      let one = value-safe v (ground (arith, h)) in
      let rest = fields-safe fields (ground (arith, h)) in
      let plain : is_operator key ≡ false = ground (arith, h) in
      elim (Bool-cases (is_forbidden key)) [
        | inl gone ↦ rw (gone) rest
        | inr kept ↦ rw (kept, plain, one, rest) refl
      ]

-- Sanitizing a value leaves, at any depth, no forbidden key and no text value with a control
-- character, changes nothing of a value that has neither, and brings in no key that the query check
-- rejects. Control characters in keys are not looked at and stay.
pub sanitize_value-clean :
    (v : Json)
    → (is_clean (sanitize_value v) ≡ true)
      × ((is_clean v ≡ true) ↔ (sanitize_value v ≡ v))
      × ((has_unsafe_key v || not (has_unsafe_key (sanitize_value v))) ≡ true)
sanitize_value-clean v = (
  value-clean v,
  (value-id v, λ e. ap is_clean (sym e) ∙ value-clean v),
  (elim (Bool-cases (has_unsafe_key v)) [
    | inl unsafe ↦ rw (unsafe) refl
    | inr safe ↦ rw (safe, value-safe v safe) refl
  ]),
)

-- An object in the body, the query or the parameters is clean after the middleware, down to its
-- leaves, whatever it was.
sanitize_input-clean : (fields : Fields) → is_clean (left_behind (object fields)) ≡ true
unfolding is_clean left_behind
sanitize_input-clean fields = fields-clean fields
