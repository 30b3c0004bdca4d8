-- ===== src/Ssrf.antt =====
-- src/utils/ssrf.ts after parsing: an address is its number or its 16-bit groups, and a URL is what
-- Node's parser returns. `&` with a mask of leading ones takes the low bits off, which is written as
-- a division and a multiplication.
pub mod Ranges
mod Tests
use ecommerce_rest_api.Base.{
  ℕ, suc, zero, String, ◌+◌, ◌-◌, ◌*◌, ◌/◌, ◌%◌, Bool, true, false, not, ◌&&◌, ◌||◌, Option, none,
  some, List, [], ◌∷◌, if◌then◌else◌, ◌==◌, any, take, length, str_eq,
}
use ecommerce_rest_api.Errors.{Result, ok, err, bad_request}

-- The parts of a dotted address, the first the most significant.
abbrev pub number_from : ℕ → List ℕ → ℕ
number_from n [] = n
number_from n (part ∷ parts) = number_from (n * 256 + part) parts

abbrev pub ipv4_to_int : List ℕ → ℕ
ipv4_to_int = number_from 0

abbrev pub power : ℕ → ℕ
power zero = 1
power (suc n) = 2 * power n

-- The leading `bits` of a number of `width` bits.
abbrev pub masked : ℕ → ℕ → ℕ → ℕ
masked width n bits = n / power (width - bits) * power (width - bits)

abbrev pub in_range : ℕ → ℕ → ℕ → Bool
in_range ip base bits = masked 32 ip bits == masked 32 base bits

abbrev pub private_v4 : List (List ℕ × ℕ)
private_v4 =
    (0 ∷ 0 ∷ 0 ∷ 0 ∷ [], 8)
    ∷ (10 ∷ 0 ∷ 0 ∷ 0 ∷ [], 8)
    ∷ (100 ∷ 64 ∷ 0 ∷ 0 ∷ [], 10)
    ∷ (127 ∷ 0 ∷ 0 ∷ 0 ∷ [], 8)
    ∷ (169 ∷ 254 ∷ 0 ∷ 0 ∷ [], 16)
    ∷ (172 ∷ 16 ∷ 0 ∷ 0 ∷ [], 12)
    ∷ (192 ∷ 0 ∷ 0 ∷ 0 ∷ [], 24)
    ∷ (192 ∷ 168 ∷ 0 ∷ 0 ∷ [], 16)
    ∷ (198 ∷ 18 ∷ 0 ∷ 0 ∷ [], 15)
    ∷ (224 ∷ 0 ∷ 0 ∷ 0 ∷ [], 4)
    ∷ (240 ∷ 0 ∷ 0 ∷ 0 ∷ [], 4)
    ∷ []

abbrev pub in_one : ℕ → List (List ℕ × ℕ) → Bool
in_one ip [] = false
in_one ip ((base, bits) ∷ ranges) = in_range ip (ipv4_to_int base) bits || in_one ip ranges

unfoldable pub is_private_v4 : ℕ → Bool
is_private_v4 ip = in_one ip private_v4

abbrev pub all_zero : List ℕ → Bool
all_zero [] = true
all_zero (g ∷ groups) = g == 0 && all_zero groups

-- The eight groups of an address; any other number of groups is malformed.
unfoldable pub is_private_v6 : List ℕ → Bool
unfolding is_private_v4
is_private_v6 (g0 ∷ g1 ∷ g2 ∷ g3 ∷ g4 ∷ g5 ∷ g6 ∷ g7 ∷ []) =
    let start = all_zero (g0 ∷ g1 ∷ g2 ∷ g3 ∷ g4 ∷ []) in
    start && all_zero (g5 ∷ g6 ∷ []) && (g7 == 0 || g7 == 1)
    || masked 16 g0 7 == 64512
    || masked 16 g0 10 == 65152
    || masked 16 g0 8 == 65280
    || start
      && (g5 == 65535 || g5 == 0)
      && is_private_v4 (ipv4_to_int (g6 / 256 ∷ g6 % 256 ∷ g7 / 256 ∷ g7 % 256 ∷ []))
is_private_v6 _ = true

-- What `net.isIP` and the parsing tell of a host.
pub data Host : Type 0 where
  v4 : ℕ → Host
  v6 : List ℕ → Host
  name : String → Host

unfoldable pub is_private_address : Host → Bool
unfolding is_private_v4 is_private_v6
is_private_address (v4 ip) = is_private_v4 ip
is_private_address (v6 groups) = is_private_v6 groups
is_private_address (name _) = false

pub record Url : Type 0 where
  pub protocol : String
  pub username : String
  pub password : String
  pub hostname : String
  pub host : Host

-- The texts that `new URL` and the host patterns decide on are the platform's.
pub record Platform : Type 0 where
  pub parse : String → Option Url
  -- One of BLOCKED_HOSTNAMES matches.
  pub is_blocked : String → Bool

abbrev pub check_url : Platform → Option Url → Result (Unit {0})
unfolding bad_request is_private_address
check_url platform none = err (bad_request "Invalid URL")
check_url platform (some url) =
    if not (str_eq url.protocol "https:")
    then err (bad_request "Only HTTPS URLs are allowed")
    else if not (str_eq url.username "") || not (str_eq url.password "")
    then err (bad_request "URLs with credentials are not allowed")
    else if is_private_address url.host || platform.is_blocked url.hostname
    then err (bad_request "Private network URLs are not allowed")
    else ok tt

abbrev checked : Platform → Option String → Result (Unit {0})
unfolding check_url
checked platform none = ok tt
checked platform (some value) =
    let result = check_url platform (platform.parse value) in
    if str_eq value "" then ok tt else result

unfoldable pub assert_safe_external_url : Platform → Option String → Result (Unit {0})
unfolding checked
assert_safe_external_url = checked
