-- ===== src/Guards/Lists.antt =====
-- Lists in the configuration are read as they are written.
use ecommerce_rest_api.Base.{
  String, true, false, List, [], ◌∷◌, ◌≡◌, refl, ap, ◌∙◌, All, str_eq, arith,
}
use ecommerce_rest_api.Durations.{is_space, trim_start}
use Prim.Native.Char.{Char}
use ecommerce_rest_api.Guards.{is_comma, cons_first, split_commas, trim_end, trimmed, parse_list}
use Prim.Native.String as Text
use Prim.Native.String.append

-- Items with commas between them, a space after each or none.
unfoldable pub join : String → List String → String
join gap [] = Text.[]
join gap (item ∷ []) = item
join gap (item ∷ other ∷ rest) =
    Text.◌++◌ item (Text.◌++◌ "," (Text.◌++◌ gap (join gap (other ∷ rest))))

abbrev pub NoComma : String → Type 0
NoComma Text.[] = Unit {0}
NoComma (Text.◌∷◌ c s) = (is_comma c ≡ false) × NoComma s

-- An item as it is kept: not empty, without commas, and trimmed.
pub record IsItem (item : String) : Type 0 where
  pub one : NoComma item
  pub start : trim_start item ≡ item
  pub end : trim_end item ≡ item
  pub named : str_eq item "" ≡ false

split_commas-one : (item : String) → NoComma item → split_commas item ≡ item ∷ []
split_commas-one Text.[] h = refl
split_commas-one (Text.◌∷◌ c s) h = rw (split_commas-one s h.1, h.0) refl

split_commas-append :
    (item rest : String)
    → NoComma item
    → split_commas (Text.◌++◌ item (Text.◌++◌ "," rest)) ≡ item ∷ split_commas rest
split_commas-append Text.[] rest h =
    rw (append.nil (Text.◌++◌ "," rest), append.cons _ Text.[] rest, append.nil rest) refl
split_commas-append (Text.◌∷◌ c s) rest h =
    rw (append.cons c s (Text.◌++◌ "," rest), split_commas-append s rest h.1, h.0) refl

abbrev pub IsBlank : String → Type 0
IsBlank Text.[] = Unit {0}
IsBlank (Text.◌∷◌ c s) = (is_space c ≡ true) × IsBlank s

is_space-is_comma : (c : Char) → is_space c ≡ true → is_comma c ≡ false
is_space-is_comma c h = ground arith

trimmed-blank :
    (gap s : String)
    → IsBlank gap
    → trimmed (split_commas (Text.◌++◌ gap s)) ≡ trimmed (split_commas s)
trimmed-blank Text.[] s h = rw (append.nil s) refl
trimmed-blank (Text.◌∷◌ c gap) s h =
    rw (append.cons c gap s, is_space-is_comma c h.0)
      (go (split_commas (Text.◌++◌ gap s)) ∙ trimmed-blank gap s h.1)
  where
    go : (parts : List String) → trimmed (cons_first c parts) ≡ trimmed parts
    go [] = rw (h.0) refl
    go (part ∷ parts) = rw (h.0) refl

-- A list of trimmed items without commas is read back from its items with commas between them and
-- blanks after these.
pub parse_list-join :
    (gap : String) (items : List String)
    → IsBlank gap
    → All IsItem items
    → parse_list (join gap items) ≡ items
unfolding parse_list join
parse_list-join gap [] blank h = refl
parse_list-join gap (item ∷ []) blank h =
    rw (split_commas-one item h.0.one, h.0.start, h.0.end, h.0.named) refl
parse_list-join gap (item ∷ other ∷ rest) blank h =
    let ih = parse_list-join gap (other ∷ rest) blank h.1 in
    rw
      (
        split_commas-append item (Text.◌++◌ gap (join gap (other ∷ rest))) h.0.one,
        h.0.start,
        h.0.end,
        h.0.named,
        trimmed-blank gap (join gap (other ∷ rest)) blank,
      )
      (ap (λ r. item ∷ r) ih)
