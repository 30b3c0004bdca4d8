-- ===== src/Reviews/Purchased.antt =====
-- Who may review a product, and what the review does to its rating.
use ecommerce_rest_api.Base.{
  ℕ, String, ◌≡◌, true, some, refl, sym, ap, subst, arith, Option-cases, inl, inr, ==_refl,
  str_eq_refl, keep, length, sum_of,
}
use ecommerce_rest_api.Domain.{ObjectId, Order, Product}
use ecommerce_rest_api.Errors.{Result, ok, err}
use ecommerce_rest_api.Mongo.{Db}
use ecommerce_rest_api.Mongo.Reference.{first, modify_first, modified_first}
use ecommerce_rest_api.Mongo.Laws.{reference, reference_collection}
use ecommerce_rest_api.Mongo.Unique.{modified_first-some}
use ecommerce_rest_api.Reviews.{
  Review, published, ReviewDb, is_sold, is_purchase, is_review_of, counts, recalculate_rating,
  review_saved, save_review, create_review,
}

pub record IsPurchased (user : ObjectId) (tenant : String) (product : ObjectId) (shop : Db)
    (review : Review) (after : ReviewDb) : Type 0 where
  pub sold : Product
  pub on_sale : first (is_sold product tenant) shop.products ≡ some sold
  pub order : Order
  pub bought : first (is_purchase user tenant product) shop.orders ≡ some order
  pub own : is_review_of user tenant product review ≡ true
  pub visible : review.status ≡ published
  pub rated : after.ratings product ≡ record {
    sum = sum_of (λ r. r.rating) (keep (counts product) after.reviews);
    count = length (keep (counts product) after.reviews);
  }

abbrev pub PurchasedIfOk :
    ObjectId → String → ObjectId → Db → ReviewDb → Result Review × ReviewDb → Type 0
PurchasedIfOk user tenant product shop before (ok review, after) =
    IsPurchased user tenant product shop review after
PurchasedIfOk user tenant product shop before (err failure, after) = after ≡ before

rated_now :
    (product : ObjectId) (review : Review) (db : ReviewDb)
    → review.product ≡ product
    → (recalculate_rating review.product db).ratings product ≡ record {
      sum = sum_of (λ r. r.rating) (keep (counts product) db.reviews);
      count = length (keep (counts product) db.reviews);
    }
unfolding recalculate_rating
rated_now product review db e = rw (e, ==_refl product) refl

same_product :
    (user : ObjectId) (tenant : String) (product : ObjectId) (r : Review)
    → is_review_of user tenant product r ≡ true
    → r.product ≡ product
same_product user tenant product r h = ground (arith, h)

saving :
    (user : ObjectId) (tenant : String) (product : ObjectId) (rating : ℕ) (shop : Db)
    (db : ReviewDb) (sold : Product) (order : Order)
    → first (is_sold product tenant) shop.products ≡ some sold
    → first (is_purchase user tenant product) shop.orders ≡ some order
    → PurchasedIfOk user tenant product shop db
        (save_review reference_collection user tenant product rating db)
unfolding save_review review_saved recalculate_rating
saving user tenant product rating shop db sold order s o =
    let change : Review → Review = λ r. record r { rating = rating; status = published } in
    elim (Option-cases (modified_first (is_review_of user tenant product) change db.reviews)) [
      | inl missing ↦ rw (missing) (record {
        sold = sold;
        on_sale = s;
        order = order;
        bought = o;
        own = rw (==_refl user, str_eq_refl tenant, ==_refl product) refl;
        visible = refl;
        rated = rw (==_refl product) refl;
      })
      | inr (review, hit) ↦
          let (old, found, own, result) =
            modified_first-some (is_review_of user tenant product) change db.reviews review hit in
          let mine : is_review_of user tenant product review ≡ true =
            subst (λ r. is_review_of user tenant product r ≡ true) (sym result) own in
          let named = same_product user tenant product review mine in
          rw (hit) (record {
            sold = sold;
            on_sale = s;
            order = order;
            bought = o;
            own = mine;
            visible = ap (λ (r : Review). r.status) result;
            rated =
                rated_now product review
                  (record db {
                    reviews = modify_first (is_review_of user tenant product) change db.reviews;
                  })
                  named;
          })
    ]

-- A review that is saved is of a product on sale that its author bought in an order past its
-- confirmation, is visible, and the product shows the rating of all its published reviews, this one
-- included; a refused one changes nothing.
create_review-PurchasedIfOk :
    (user : ObjectId) (tenant : String) (product : ObjectId) (rating : ℕ) (shop : Db)
    (db : ReviewDb)
    → PurchasedIfOk user tenant product shop db
        (create_review reference reference_collection user tenant product rating shop db)
unfolding create_review
create_review-PurchasedIfOk user tenant product rating shop db =
    elim (Option-cases (first (is_sold product tenant) shop.products)) [
      | inl unsold ↦ rw (unsold) refl
      | inr (sold, s) ↦ elim (Option-cases (first (is_purchase user tenant product) shop.orders)) [
        | inl unbought ↦ rw (s, unbought) refl
        | inr (order, o) ↦ rw (s, o) (saving user tenant product rating shop db sold order s o)
      ]
    ]
