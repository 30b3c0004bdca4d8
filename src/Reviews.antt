-- ===== src/Reviews.antt =====
-- src/controllers/reviewController.ts and wishlistController.ts, after validation. The average of the
-- ratings is kept as their sum and their number; a review's title and comment are left out. No other
-- request writes in between, so the upsert of a review sees no duplicate key.
pub mod Purchased
mod Tests
use ecommerce_rest_api.Base.{
  ℕ, String, ◌+◌, Bool, true, false, not, ◌&&◌, Option, none, some, List, [], ◌∷◌, ◌++◌,
  if◌then◌else◌, ◌==◌, any, is_some, str_eq, contains, keep, length, sum_of,
}
use ecommerce_rest_api.Domain.{ObjectId, Product, Order, OrderStatus}
use ecommerce_rest_api.Errors.{Result, ok, err, not_found, forbidden}
use ecommerce_rest_api.Mongo.{Mongo, Db, Collection}
use ecommerce_rest_api.StateMachine.{is_order_in}

pub data ReviewStatus : Type 0 where
  published is_hidden flagged : ReviewStatus

pub record Review : Type 0 where
  pub id : ObjectId
  pub user : ObjectId
  pub tenant : String
  pub product : ObjectId
  pub rating : ℕ
  pub status : ReviewStatus

pub record Rating : Type 0 where
  pub sum : ℕ
  pub count : ℕ

-- The reviews, and the rating that each product shows.
pub record ReviewDb : Type 0 where
  pub reviews : List Review
  pub ratings : ObjectId → Rating
  pub next_id : ObjectId

abbrev pub is_sold : ObjectId → String → Product → Bool
is_sold id tenant p =
    p.id == id && (str_eq p.tenant tenant && (p.is_active && not (is_some p.deleted_at)))

abbrev pub reviewable_statuses : List OrderStatus
reviewable_statuses =
    OrderStatus.confirmed ∷ OrderStatus.processing ∷ OrderStatus.shipped ∷ OrderStatus.delivered
    ∷ []

abbrev pub is_purchase : ObjectId → String → ObjectId → Order → Bool
is_purchase user tenant product o =
    o.user == user
    && (str_eq o.tenant tenant
        && (any (λ i. i.product == product) o.items && is_order_in o.status reviewable_statuses))

abbrev pub is_review_of : ObjectId → String → ObjectId → Review → Bool
is_review_of user tenant product r =
    r.user == user && (str_eq r.tenant tenant && r.product == product)

abbrev is_published : ReviewStatus → Bool
is_published published = true
is_published _ = false

abbrev pub counts : ObjectId → Review → Bool
counts product r = r.product == product && is_published r.status

-- `$avg` and `$sum` over the published reviews, zero when there are none.
unfoldable pub recalculate_rating : ObjectId → ReviewDb → ReviewDb
recalculate_rating product db =
    let counted = keep (counts product) db.reviews in
    let rating : Rating = record { sum = sum_of (λ r. r.rating) counted; count = length counted } in
    record db { ratings = λ id. if id == product then rating else db.ratings id }

abbrev pub saved_review :
    Collection Review → Review → Option Review × List Review → ReviewDb → Review × ReviewDb
saved_review c created (some review, reviews) db = (review, record db { reviews = reviews })
saved_review c created (none, reviews) db =
    (created, record db { reviews = c.create created reviews; next_id = db.next_id + 1 })

abbrev pub review_saved : Review × ReviewDb → Result Review × ReviewDb
unfolding recalculate_rating
review_saved (review, db) = (ok review, recalculate_rating review.product db)

abbrev pub save_review :
    Collection Review → ObjectId → String → ObjectId → ℕ → ReviewDb → Result Review × ReviewDb
unfolding review_saved
save_review c user tenant product rating db =
    let created : Review = record {
      id = db.next_id;
      user = user;
      tenant = tenant;
      product = product;
      rating = rating;
      status = published;
    } in
    review_saved (
      saved_review c created
        (c.find_one_and_update (is_review_of user tenant product)
          (λ r. record r { rating = rating; status = published }) db.reviews)
        db)

unfoldable pub create_review :
    Mongo
    → Collection Review
    → ObjectId
    → String
    → ObjectId
    → ℕ
    → Db
    → ReviewDb
    → Result Review × ReviewDb
unfolding save_review not_found forbidden
create_review m c user tenant product rating shop db =
    if not (is_some (m.products.find_one (is_sold product tenant) shop.products))
    then (err (not_found "Product not found"), db)
    else if not (is_some (m.orders.find_one (is_purchase user tenant product) shop.orders))
    then (err (forbidden "Only verified purchasers can review this product"), db)
    else save_review c user tenant product rating db

pub record Wishlist : Type 0 where
  pub user : ObjectId
  pub tenant : String
  pub products : List ObjectId

abbrev pub is_wishlist_of : ObjectId → String → Wishlist → Bool
is_wishlist_of user tenant w = w.user == user && str_eq w.tenant tenant

-- `$addToSet`
abbrev pub add_to_set : ObjectId → List ObjectId → List ObjectId
add_to_set product products =
    if contains product products then products else products ++ product ∷ []

abbrev pub wished :
    Collection Wishlist
    → Wishlist
    → Option Wishlist × List Wishlist
    → Result Wishlist × List Wishlist
wished c created (some wishlist, lists) = (ok wishlist, lists)
wished c created (none, lists) = (ok created, c.create created lists)

unfoldable pub add_wish :
    Mongo
    → Collection Wishlist
    → ObjectId
    → String
    → ObjectId
    → Db
    → List Wishlist
    → Result Wishlist × List Wishlist
unfolding not_found
add_wish m c user tenant product shop lists =
    let update : Wishlist → Wishlist = λ w. record w { products = add_to_set product w.products } in
    let saved =
      wished c (record { user = user; tenant = tenant; products = product ∷ [] })
        (c.find_one_and_update (is_wishlist_of user tenant) update lists) in
    if is_some (m.products.find_one (is_sold product tenant) shop.products)
    then saved
    else (err (not_found "Product not found"), lists)

abbrev pub or_empty : ObjectId → Option Wishlist × List Wishlist → String → Wishlist × List Wishlist
or_empty user (some wishlist, lists) tenant = (wishlist, lists)
or_empty user (none, lists) tenant = (record { user = user; tenant = tenant; products = [] }, lists)

-- `$pull`; a missing wishlist is shown as an empty one.
unfoldable pub remove_wish :
    Collection Wishlist → ObjectId → String → ObjectId → List Wishlist → Wishlist × List Wishlist
remove_wish c user tenant product lists =
    or_empty user
      (c.find_one_and_update (is_wishlist_of user tenant)
        (λ w. record w { products = keep (λ id. not (id == product)) w.products }) lists)
      tenant
