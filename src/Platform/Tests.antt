-- ===== src/Platform/Tests.antt =====
-- A signature for `/uploads/a.b` of tenant `c`, presented for `/uploads/a` of tenant `b.c`.
use ecommerce_rest_api.Base.{
  ℕ, zero, suc, String, ◌+◌, ◌/◌, ◌-◌, ◌≡◌, ◌∙◌, ap, Bool, true, false, not, ◌&&◌, some, List, [],
  ◌∷◌, refl, arith, str_eq, str_eq_iff, Bool-cases, inl, inr, ltb, ◌==◌, ==_refl,
}
use Prim.Native.String as Text
use ecommerce_rest_api.Platform.{
  Runtime, IsRuntime, create_signed_url, verify_signed_url, is_upload_path,
}
use ecommerce_rest_api.Platform.Signatures.{verify-create}

upload-paths : is_upload_path "/uploads/2024/a.png" ≡ true
upload-paths = refl

upload-parent : is_upload_path "/uploads/../etc" ≡ false
upload-parent = refl

upload-other : is_upload_path "/uploadsx" ≡ false
upload-other = refl

-- Numbers as tallies.
abbrev tally : ℕ → String
tally zero = "."
tally (suc n) = Text.◌∷◌ "|" (tally n)

count-tally : (n : ℕ) → Text.count (tally n) ≡ suc n
count-tally zero = refl
count-tally (suc n) = Text.count.cons "|" (tally n) ∙ ap suc (count-tally n)

abbrev equal_lists : List ℕ → List ℕ → Bool
equal_lists [] [] = true
equal_lists (x ∷ xs) (y ∷ ys) = x == y && equal_lists xs ys
equal_lists _ _ = false

equal_lists_refl : (xs : List ℕ) → equal_lists xs xs ≡ true
equal_lists_refl [] = refl
equal_lists_refl (x ∷ xs) = rw (==_refl x, equal_lists_refl xs) refl

abbrev node : Runtime
node = record {
  hmac = λ secret payload. payload;
  from_hex = λ text. Text.count text ∷ [];
  show = tally;
  number = λ text. some (Text.count text - 1);
  same_bytes = equal_lists;
}

tally-long : (n : ℕ) → str_eq (tally n) "" ≡ false
tally-long n = elim (Bool-cases (str_eq (tally n) "")) [
  | inr long ↦ long
  | inl empty ↦
      let same = ap Text.count ((str_eq_iff (tally n) "").0 empty) in
      let counted = count-tally n in absurd (omega (arith, same, counted))
]

node-IsRuntime : IsRuntime node
node-IsRuntime = record {
  number_lem = λ n. ap some (omega (arith, count-tally n));
  show_lem = tally-long;
  same_lem = equal_lists_refl;
}

verify-create_example :
    (let url = create_signed_url node "secret" "/uploads/a.b" "c" "7" 2 5000 in
      verify_signed_url node "secret"
        (record url { path = "/uploads/a"; tenant = "b.c"; subject = "7" })
        6000
      ≡ not (ltb (5000 / 1000 + 2) (6000 / 1000)))
unfolding create_signed_url
verify-create_example =
    verify-create node "secret" "/uploads/a.b" "c" "7" "/uploads/a" "b.c" "7" 2 5000 6000
      node-IsRuntime refl
