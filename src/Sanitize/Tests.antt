-- ===== src/Sanitize/Tests.antt =====
-- A product's body, and an array that stays as it came.
use ecommerce_rest_api.Base.{◌≡◌, true, not, ◌||◌, ◌↔◌, refl}
use ecommerce_rest_api.Sanitize.{
  Json, null, number, string, array, object, nil, cons, end, field, sanitize_value, left_behind,
  has_unsafe_key,
}
use ecommerce_rest_api.Sanitize.Clean.{is_clean, sanitize_value-clean}

abbrev polluted : Json
polluted = object (field "name" (string "a < b") (field "__proto__" (number 1) end))

sanitize-drops : sanitize_value polluted ≡ object (field "name" (string "a < b") end)
unfolding sanitize_value
sanitize-drops = refl

-- The copy that `map` makes is not assigned to the request.
array-stays :
    left_behind (array (cons (string "a\0") (cons polluted nil)))
    ≡ array (cons (string "a\0") (cons (object (field "name" (string "a < b") end)) nil))
unfolding left_behind
array-stays = refl

operator-unsafe : has_unsafe_key (object (field "price" (object (field "$gt" null end)) end)) ≡ true
unfolding has_unsafe_key
operator-unsafe = refl

sanitize_value-clean_example :
    (is_clean (sanitize_value polluted) ≡ true)
    × ((is_clean polluted ≡ true) ↔ (sanitize_value polluted ≡ polluted))
    × ((has_unsafe_key polluted || not (has_unsafe_key (sanitize_value polluted))) ≡ true)
sanitize_value-clean_example = sanitize_value-clean polluted
