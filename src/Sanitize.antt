-- ===== src/Sanitize.antt =====
-- src/middlewares/sanitizeInput.ts and sanitizeNoSql.ts, on the values that JSON and query strings
-- parse to. The fields of an object have distinct keys, in the order of `Object.keys`.
pub mod Clean
mod Tests
use ecommerce_rest_api.Base.{
  ℕ, String, Bool, true, false, not, ◌&&◌, ◌||◌, if◌then◌else◌, ◌==◌, leb, str_eq,
}
use ecommerce_rest_api.Errors.{Result, ok, err, bad_request}
use Prim.Native.Char.{Char, code}
use Prim.Native.String as Text
use text.Mathlib.Text.{starts_with}

mutual
  pub data Json : Type 0 where
    null : Json
    boolean : Bool → Json
    number : ℕ → Json
    string : String → Json
    array : Items → Json
    object : Fields → Json

  pub data Items : Type 0 where
    nil : Items
    cons : Json → Items → Items

  pub data Fields : Type 0 where
    end : Fields
    field : String → Json → Fields → Fields

abbrev pub is_forbidden : String → Bool
is_forbidden key = str_eq key "__proto__" || str_eq key "constructor" || str_eq key "prototype"

-- `[\u0000-\u0008\u000B\u000C\u000E-\u001F\u007F]`
abbrev pub is_control : Char → Bool
is_control c = let n = code c in leb n 8 || n == 11 || n == 12 || leb 14 n && leb n 31 || n == 127

-- `value.replace(CONTROL_CHARS, "")`
abbrev pub without_controls : String → String
without_controls Text.[] = Text.[]
without_controls (Text.◌∷◌ c s) =
    let rest = without_controls s in if is_control c then rest else Text.◌∷◌ c rest

-- The value returned.
unfoldable mutual
  pub sanitize_value : Json → Json
  sanitize_value null = null
  sanitize_value (boolean b) = boolean b
  sanitize_value (number n) = number n
  sanitize_value (string s) = string (without_controls s)
  sanitize_value (array items) = array (sanitize_items items)
  sanitize_value (object fields) = object (sanitize_fields fields)

  pub sanitize_items : Items → Items
  sanitize_items nil = nil
  sanitize_items (cons v items) = cons (sanitize_value v) (sanitize_items items)

  pub sanitize_fields : Fields → Fields
  sanitize_fields end = end
  sanitize_fields (field key v fields) =
      let rest = sanitize_fields fields in
      let kept = field key (sanitize_value v) rest in if is_forbidden key then rest else kept

-- What the argument itself has become: an object is changed in place, an array is copied.
unfoldable mutual
  unfolding sanitize_fields

  pub left_behind : Json → Json
  left_behind (array items) = array (left_behind_items items)
  left_behind (object fields) = object (sanitize_fields fields)
  left_behind null = null
  left_behind (boolean b) = boolean b
  left_behind (number n) = number n
  left_behind (string s) = string s

  pub left_behind_items : Items → Items
  left_behind_items nil = nil
  left_behind_items (cons v items) = cons (left_behind v) (left_behind_items items)

pub record Request : Type 0 where
  pub body : Json
  pub query : Json
  pub params : Json

-- The returned values are not used.
unfoldable pub sanitize_input : Request → Request
unfolding left_behind
sanitize_input req = record {
  body = left_behind req.body;
  query = left_behind req.query;
  params = left_behind req.params;
}

abbrev has_dot : String → Bool
has_dot Text.[] = false
has_dot (Text.◌∷◌ c s) = code c == 46 || has_dot s

abbrev pub is_operator : String → Bool
is_operator key = starts_with key "$" || has_dot key

unfoldable mutual
  pub has_unsafe_key : Json → Bool
  has_unsafe_key (array items) = some_unsafe items
  has_unsafe_key (object fields) = unsafe_fields fields
  has_unsafe_key null = false
  has_unsafe_key (boolean b) = false
  has_unsafe_key (number n) = false
  has_unsafe_key (string s) = false

  pub some_unsafe : Items → Bool
  some_unsafe nil = false
  some_unsafe (cons v items) = has_unsafe_key v || some_unsafe items

  pub unsafe_fields : Fields → Bool
  unsafe_fields end = false
  unsafe_fields (field key v fields) = is_operator key || has_unsafe_key v || unsafe_fields fields

unfoldable pub sanitize_no_sql : Request → Result Request
unfolding has_unsafe_key bad_request
sanitize_no_sql req =
    if has_unsafe_key req.body || has_unsafe_key req.query || has_unsafe_key req.params
    then err (bad_request "Unsafe query payload")
    else ok req
