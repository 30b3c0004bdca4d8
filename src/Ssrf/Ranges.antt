-- ===== src/Ssrf/Ranges.antt =====
-- The masks of src/utils/ssrf.ts against the ranges that they stand for.
use ecommerce_rest_api.Base.{
  ℕ, suc, ◌+◌, ◌*◌, ◌/◌, ◌%◌, ◌≡◌, Bool, false, ◌&&◌, ◌||◌, List, [], ◌∷◌, ◌==◌, leb, refl, ap, ◌∙◌,
  arith,
}
use ecommerce_rest_api.Ssrf.{ipv4_to_int, is_private_v4, is_private_v6, is_private_address, v4, v6}

-- The addresses from `from` to `to`, both included.
abbrev between : List ℕ → List ℕ → ℕ → Bool
between from to ip = leb (ipv4_to_int from) ip && leb ip (ipv4_to_int to)

mask_24 :
    (ip k : ℕ)
    → (ip / 16777216 * 16777216 == k * 16777216)
      ≡ (leb (k * 16777216) ip && leb ip (k * 16777216 + 16777215))
mask_24 ip k = ground arith

mask_22 :
    (ip k : ℕ)
    → (ip / 4194304 * 4194304 == k * 4194304)
      ≡ (leb (k * 4194304) ip && leb ip (k * 4194304 + 4194303))
mask_22 ip k = ground arith

mask_16 :
    (ip k : ℕ)
    → (ip / 65536 * 65536 == k * 65536) ≡ (leb (k * 65536) ip && leb ip (k * 65536 + 65535))
mask_16 ip k = ground arith

mask_20 :
    (ip k : ℕ)
    → (ip / 1048576 * 1048576 == k * 1048576)
      ≡ (leb (k * 1048576) ip && leb ip (k * 1048576 + 1048575))
mask_20 ip k = ground arith

mask_8 : (ip k : ℕ) → (ip / 256 * 256 == k * 256) ≡ (leb (k * 256) ip && leb ip (k * 256 + 255))
mask_8 ip k = ground arith

mask_17 :
    (ip k : ℕ)
    → (ip / 131072 * 131072 == k * 131072) ≡ (leb (k * 131072) ip && leb ip (k * 131072 + 131071))
mask_17 ip k = ground arith

mask_28 :
    (ip k : ℕ)
    → (ip / 268435456 * 268435456 == k * 268435456)
      ≡ (leb (k * 268435456) ip && leb ip (k * 268435456 + 268435455))
mask_28 ip k = ground arith

-- The first and the last address of each block that the guard refuses: this network, private use,
-- shared by carriers, loopback, link-local, private use, protocol assignments, private use,
-- benchmarks, multicast, and the rest. The blocks for documentation are not among them.
abbrev refused : List (List ℕ × List ℕ)
refused =
    (0 ∷ 0 ∷ 0 ∷ 0 ∷ [], 0 ∷ 255 ∷ 255 ∷ 255 ∷ [])
    ∷ (10 ∷ 0 ∷ 0 ∷ 0 ∷ [], 10 ∷ 255 ∷ 255 ∷ 255 ∷ [])
    ∷ (100 ∷ 64 ∷ 0 ∷ 0 ∷ [], 100 ∷ 127 ∷ 255 ∷ 255 ∷ [])
    ∷ (127 ∷ 0 ∷ 0 ∷ 0 ∷ [], 127 ∷ 255 ∷ 255 ∷ 255 ∷ [])
    ∷ (169 ∷ 254 ∷ 0 ∷ 0 ∷ [], 169 ∷ 254 ∷ 255 ∷ 255 ∷ [])
    ∷ (172 ∷ 16 ∷ 0 ∷ 0 ∷ [], 172 ∷ 31 ∷ 255 ∷ 255 ∷ [])
    ∷ (192 ∷ 0 ∷ 0 ∷ 0 ∷ [], 192 ∷ 0 ∷ 0 ∷ 255 ∷ [])
    ∷ (192 ∷ 168 ∷ 0 ∷ 0 ∷ [], 192 ∷ 168 ∷ 255 ∷ 255 ∷ [])
    ∷ (198 ∷ 18 ∷ 0 ∷ 0 ∷ [], 198 ∷ 19 ∷ 255 ∷ 255 ∷ [])
    ∷ (224 ∷ 0 ∷ 0 ∷ 0 ∷ [], 239 ∷ 255 ∷ 255 ∷ 255 ∷ [])
    ∷ (240 ∷ 0 ∷ 0 ∷ 0 ∷ [], 255 ∷ 255 ∷ 255 ∷ 255 ∷ [])
    ∷ []

abbrev within : ℕ → List (List ℕ × List ℕ) → Bool
within ip [] = false
within ip ((from, to) ∷ ranges) = between from to ip || within ip ranges

abbrev pub is_refused : ℕ → Bool
is_refused ip = within ip refused

private-refused : (ip : ℕ) → is_private_v4 ip ≡ is_refused ip
unfolding is_private_v4
private-refused ip =
    rw
      (
        mask_24 ip 0,
        mask_24 ip 10,
        mask_22 ip 401,
        mask_24 ip 127,
        mask_16 ip 43518,
        mask_20 ip 2753,
        mask_8 ip 12582912,
        mask_16 ip 49320,
        mask_17 ip 25353,
        mask_28 ip 14,
        mask_28 ip 15,
      )
      refl

bytes : (a b : ℕ) → ipv4_to_int (a / 256 ∷ a % 256 ∷ b / 256 ∷ b % 256 ∷ []) ≡ a * 65536 + b
bytes a b = omega arith

-- The guard refuses an IPv4 address exactly if it lies in one of eleven blocks, given by their first
-- and last address: 0/8, 10/8, 100.64/10, 127/8, 169.254/16, 172.16/12, 192.0.0/24, 192.168/16,
-- 198.18/15 and all from 224.0.0.0 on. The same holds for one embedded in IPv6 as ::ffff:a.b.c.d or,
-- where the upper half is not 0 and so it is neither :: nor ::1, as ::a.b.c.d.
pub is_private_address-refused :
    (ip a b : ℕ)
    → (is_private_address (v4 ip) ≡ is_refused ip)
      × (is_private_address (v6 (0 ∷ 0 ∷ 0 ∷ 0 ∷ 0 ∷ 65535 ∷ a ∷ b ∷ []))
          ≡ is_refused (a * 65536 + b))
      × (is_private_address (v6 (0 ∷ 0 ∷ 0 ∷ 0 ∷ 0 ∷ 0 ∷ suc a ∷ b ∷ []))
          ≡ is_refused (suc a * 65536 + b))
unfolding is_private_address is_private_v6
is_private_address-refused ip a b = (
  private-refused ip,
  ap is_private_v4 (bytes a b) ∙ private-refused (a * 65536 + b),
  (let positive : (suc a == 0) ≡ false = ground arith in
      rw (positive) (ap is_private_v4 (bytes (suc a) b) ∙ private-refused (suc a * 65536 + b))),
)
