-- ===== src/Pagination/Bounds.antt =====
-- The bounds of a page.
use ecommerce_rest_api.Base.{ℕ, ◌≤◌, ◌≡◌, ◌+◌, ◌-◌, ◌*◌, arith, zero, suc}
use ecommerce_rest_api.Pagination.{
  Parsed, PaginationDefaults, or_default, at_least_one, build_pagination,
}

at_least_one-positive : (p : Parsed) (d : ℕ) → 1 ≤ at_least_one p d
at_least_one-positive p d = ground arith

pages_before : (p l : ℕ) → 1 ≤ p → (p - 1) * l + l ≡ p * l
pages_before zero l h = omega (arith, h)
pages_before (suc p) l h = grind arith

-- Whatever the query says, the page is at least 1 and the limit between 1 and the maximum, which is
-- the given one or 100; and what is skipped are the pages before.
pub build_pagination_bounds :
    (page limit : Parsed) (defaults : PaginationDefaults)
    → (1 ≤ (build_pagination page limit defaults).page)
      × (1 ≤ (build_pagination page limit defaults).limit)
      × ((build_pagination page limit defaults).limit ≤ or_default defaults.max_limit 100)
      × ((build_pagination page limit defaults).skip + (build_pagination page limit defaults).limit
          ≡ (build_pagination page limit defaults).page
            * (build_pagination page limit defaults).limit)
unfolding build_pagination
build_pagination_bounds page limit defaults =
    let p = at_least_one-positive page 1 in
    let l = at_least_one-positive limit (or_default defaults.limit 20) in
    let m : 1 ≤ or_default defaults.max_limit 100 = ground arith in
    (p, omega (arith, l, m), omega arith, pages_before _ _ p)
