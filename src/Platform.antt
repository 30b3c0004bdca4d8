-- ===== src/Platform.antt =====
-- Signed URLs and API keys: src/services/securityService.ts and the handlers of
-- src/controllers/platformController.ts around them. HMAC, hex decoding and the conversions between
-- numbers and texts are Node's (`Runtime`). A URL is the parameters that Express reads back from it.
pub mod Signatures
mod Tests
use ecommerce_rest_api.Base.{
  ℕ, String, ◌+◌, ◌/◌, Bool, true, false, not, ◌&&◌, ◌||◌, Option, none, some, List, if◌then◌else◌,
  ltb, leb, ◌==◌, str_eq, ◌≡◌,
}
use ecommerce_rest_api.Domain.{ObjectId, Date, Role}
use ecommerce_rest_api.Errors.{Result, ok, err, bad_request, forbidden}
use ecommerce_rest_api.Mongo.{Collection}
use ecommerce_rest_api.Access.{ApiKey, role_eq}
use Prim.Native.Char.{Char, code}
use Prim.Native.String as Text
use text.Mathlib.Text.{starts_with}

pub record Runtime : Type 0 where
  pub hmac : String → String → String
  pub from_hex : String → List ℕ
  pub show : ℕ → String
  -- `Number(text)`, none for NaN.
  pub number : String → Option ℕ
  pub same_bytes : List ℕ → List ℕ → Bool

-- What the code relies on: numerals are read back, and `timingSafeEqual` tells equal bytes.
pub record IsRuntime (node : Runtime) : Type 0 where
  pub number_lem : (n : ℕ) → node.number (node.show n) ≡ some n
  pub show_lem : (n : ℕ) → str_eq (node.show n) "" ≡ false
  pub same_lem : (xs : List ℕ) → node.same_bytes xs xs ≡ true

pub record SignedUrl : Type 0 where
  pub path : String
  pub tenant : String
  pub subject : String
  pub expires : String
  pub signature : String

infixr 65 ◌<>◌
abbrev ◌<>◌ : String → String → String
a <> b = Text.◌++◌ a b

abbrev pub payload_of : String → String → String → String → String
payload_of path tenant subject expires = path <> "." <> tenant <> "." <> subject <> "." <> expires

unfoldable pub create_signed_url :
    Runtime → String → String → String → String → ℕ → Date → SignedUrl
create_signed_url node secret path tenant subject ttl_seconds now =
    let expires = node.show (now / 1000 + ttl_seconds) in
    record {
      path = path;
      tenant = tenant;
      subject = subject;
      expires = expires;
      signature = node.hmac secret (payload_of path tenant subject expires);
    }

-- A comparison with NaN is false.
abbrev pub is_past : Option ℕ → Date → Bool
is_past none now = false
is_past (some at) now = ltb at (now / 1000)

unfoldable pub verify_signed_url : Runtime → String → SignedUrl → Date → Bool
verify_signed_url node secret url now =
    let expected = node.hmac secret (payload_of url.path url.tenant url.subject url.expires) in
    if str_eq url.expires "" || is_past (node.number url.expires) now
    then false
    else node.same_bytes (node.from_hex url.signature) (node.from_hex expected)

abbrev is_word : Char → Bool
is_word c =
    let n = code c in
    leb 65 n && leb n 90
    || leb 97 n && leb n 122
    || leb 48 n && leb n 57
    || n == 95
    || n == 46
    || n == 45

-- `(\/[\w.-]+)*$`; the flag is whether the segment so far has a character or there is none.
abbrev segments : Bool → String → Bool
segments filled Text.[] = filled
segments filled (Text.◌∷◌ c s) =
    let rest = segments true s in
    let next = segments false s in if code c == 47 then filled && next else is_word c && rest

-- The text after `/uploads` starts a segment.
abbrev after_root : String → Bool
after_root Text.[] = true
after_root (Text.◌∷◌ c s) = code c == 47 && segments false s

abbrev drop_chars : ℕ → String → String
drop_chars n s = Text.slice s n (Text.len s)

-- `path.includes("..")`; the flag is whether the character before was a dot.
abbrev has_dots : Bool → String → Bool
has_dots dot Text.[] = false
has_dots dot (Text.◌∷◌ c s) = let is_dot = code c == 46 in dot && is_dot || has_dots is_dot s

abbrev pub is_upload_path : String → Bool
is_upload_path path =
    starts_with path "/uploads" && after_root (drop_chars 8 path) && not (has_dots false path)

-- `queryString(value) || d`
abbrev or_text : Option String → String → String
or_text none d = d
or_text (some a) d = if str_eq a "" then d else a

unfoldable pub signed_url :
    Runtime
    → String
    → ℕ
    → String
    → Role
    → String
    → Option String
    → Option String
    → Date
    → Result SignedUrl
unfolding create_signed_url bad_request forbidden
signed_url node secret ttl own_subject role tenant query_path requested now =
    let path = or_text query_path "/uploads" in
    let subject = or_text requested own_subject in
    if not (is_upload_path path)
    then err (bad_request "Only /uploads paths can be signed")
    else if not (str_eq subject own_subject) && not (role_eq role Role.admin)
    then err (forbidden "Cannot sign URLs for another subject")
    else ok (create_signed_url node secret path tenant subject ttl now)

-- `key` is the random value of `createApiKeyValue`, which only the caller ever sees.
unfoldable pub create_scoped_api_key :
    (String → String)
    → Collection ApiKey
    → String
    → String
    → List String
    → Option Date
    → ObjectId
    → List ApiKey
    → (ApiKey × String) × List ApiKey
create_scoped_api_key sha256 c key tenant scopes expires_at id keys =
    let api_key : ApiKey = record {
      id = id;
      key_hash = sha256 key;
      is_active = true;
      expires_at = expires_at;
      scopes = scopes;
      tenant = tenant;
      last_used_at = none;
    } in
    ((api_key, key), c.create api_key keys)
