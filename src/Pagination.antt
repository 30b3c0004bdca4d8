-- ===== src/Pagination.antt =====
-- `buildPagination` of src/utils/pagination.ts, and `list` of src/services/OrderService.ts. A query
-- value is what `Number.parseInt` makes of it; `newest` is the server's sort by creation.
pub mod Bounds
mod Tests
use ecommerce_rest_api.Base.{
  ℕ, zero, suc, ◌+◌, ◌-◌, ◌*◌, ◌/◌, Bool, true, false, ◌&&◌, List, [], ◌∷◌, if◌then◌else◌, ◌==◌,
  max, min, str_eq, take, Option, none, some,
}
use ecommerce_rest_api.Domain.{Order}
use ecommerce_rest_api.Mongo.{Mongo, Db}
use ecommerce_rest_api.Checkout.{Request}
use ecommerce_rest_api.Orders.{is_admin}

pub data Parsed : Type 0 where
  not_a_number : Parsed
  below_zero : Parsed
  number : ℕ → Parsed

-- `defaults.limit` and `defaults.maxLimit`; 0 for one that is not given.
pub record PaginationDefaults : Type 0 where
  pub limit : ℕ
  pub max_limit : ℕ

pub record Pagination : Type 0 where
  pub page : ℕ
  pub limit : ℕ
  pub skip : ℕ

-- `n || d` on numbers.
abbrev pub or_default : ℕ → ℕ → ℕ
or_default zero d = d
or_default (suc n) d = suc n

-- `Math.max(parsed || d, 1)`
abbrev pub at_least_one : Parsed → ℕ → ℕ
at_least_one not_a_number d = max d 1
at_least_one below_zero d = 1
at_least_one (number n) d = max (or_default n d) 1

unfoldable pub build_pagination : Parsed → Parsed → PaginationDefaults → Pagination
build_pagination page limit defaults =
    let max_limit = or_default defaults.max_limit 100 in
    let p = at_least_one page 1 in
    let l = min (at_least_one limit (or_default defaults.limit 20)) max_limit in
    record { page = p; limit = l; skip = (p - 1) * l }

abbrev pub skip : {A : Type 0} → ℕ → List A → List A
skip zero xs = xs
skip (suc n) [] = []
skip (suc n) (x ∷ xs) = skip n xs

abbrev pub is_listed : Request → Order → Bool
is_listed req o =
    if is_admin req.role
    then str_eq o.tenant req.tenant
    else o.user == req.user_id && str_eq o.tenant req.tenant

pub record OrderPage : Type 0 where
  pub orders : List Order
  pub page : ℕ
  pub limit : ℕ
  pub total : ℕ
  pub pages : ℕ

-- `Math.ceil(total / limit)`
abbrev pub ceil_div : ℕ → ℕ → ℕ
ceil_div total limit = (total + (limit - 1)) / limit

unfoldable pub list_orders :
    Mongo → (List Order → List Order) → Request → Parsed → Parsed → Db → OrderPage
unfolding build_pagination
list_orders m newest req page limit db =
    let p = build_pagination page limit (record { limit = 0; max_limit = 0 }) in
    let total = m.orders.count_documents (is_listed req) db.orders in
    record {
      orders = take p.limit (skip p.skip (newest (m.orders.find (is_listed req) db.orders)));
      page = p.page;
      limit = p.limit;
      total = total;
      pages = ceil_div total p.limit;
    }
