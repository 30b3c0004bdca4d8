-- ===== src/Catalog/Fields.antt =====
-- What a body can change of a product under the field policy.
use ecommerce_rest_api.Base.{
  String, ◌≡◌, ◌⊎◌, inl, inr, false, List, [], ◌∷◌, refl, ap, ◌∙◌, arith, Bool-cases, str_eq,
  str_eq_iff,
}
use ecommerce_rest_api.Domain.{Product, Role}
use ecommerce_rest_api.Catalog.{
  Value, words, amount, number, flag, object_id, instant, Body, product, allowed_for, names, picked,
  assign, assign_all,
}

-- The fields that no body sets.
pub record IsSameProduct (old new : Product) : Type 0 where
  pub id : new.id ≡ old.id
  pub seller : new.seller ≡ old.seller
  pub tenant : new.tenant ≡ old.tenant
  pub deleted_at : new.deleted_at ≡ old.deleted_at
  pub rating_count : new.rating_count ≡ old.rating_count

picked_nothing : (body : Body) → picked [] body ≡ []
picked_nothing [] = refl
picked_nothing ((key, v) ∷ body) = picked_nothing body

-- A field that only one key sets is kept by a body without that key.
module _ {B : Type 0} (field : Product → B) (name : String)
    (keeps : (key : String) (v : Value) (p : Product)
      → str_eq key name ≡ false
      → field (assign key v p) ≡ field p) where
  assign_all-picked :
      (allowed : List String) (body : Body) (p : Product)
      → names name allowed ≡ false
      → field (assign_all (picked allowed body) p) ≡ field p
  assign_all-picked allowed [] p h = refl
  assign_all-picked allowed ((key, v) ∷ body) p h =
      let skipped = assign_all-picked allowed body p h in
      let taken = assign_all-picked allowed body (assign key v p) h in
      elim (Bool-cases (names key allowed)) [
        | inr dropped ↦ rw (dropped) skipped
        | inl kept ↦
            let differs : str_eq key name ≡ false = elim (Bool-cases (str_eq key name)) [
              | inr differs ↦ differs
              | inl same ↦
                  let e : names key allowed ≡ names name allowed =
                    ap (λ x. names x allowed) ((str_eq_iff key name).0 same) in
                  absurd (cc)
            ] in
            rw (kept) (taken ∙ keeps key v p differs)
      ]

assign-seller :
    (key : String) (v : Value) (p : Product)
    → str_eq key "seller" ≡ false
    → (assign key v p).seller ≡ p.seller
assign-seller key (words s) p h = ground arith
assign-seller key (amount a) p h = ground arith
assign-seller key (number n) p h = ground arith
assign-seller key (flag b) p h = ground arith
assign-seller key (object_id id) p h = ground (arith, h)
assign-seller key (instant at) p h = ground arith

assign-tenant :
    (key : String) (v : Value) (p : Product)
    → str_eq key "tenant" ≡ false
    → (assign key v p).tenant ≡ p.tenant
assign-tenant key (words s) p h = ground (arith, h)
assign-tenant key (amount a) p h = ground arith
assign-tenant key (number n) p h = ground arith
assign-tenant key (flag b) p h = ground arith
assign-tenant key (object_id id) p h = ground arith
assign-tenant key (instant at) p h = ground arith

assign-deleted_at :
    (key : String) (v : Value) (p : Product)
    → str_eq key "deletedAt" ≡ false
    → (assign key v p).deleted_at ≡ p.deleted_at
assign-deleted_at key (words s) p h = ground arith
assign-deleted_at key (amount a) p h = ground arith
assign-deleted_at key (number n) p h = ground arith
assign-deleted_at key (flag b) p h = ground arith
assign-deleted_at key (object_id id) p h = ground arith
assign-deleted_at key (instant at) p h = ground (arith, h)

assign-rating_count :
    (key : String) (v : Value) (p : Product)
    → str_eq key "ratingCount" ≡ false
    → (assign key v p).rating_count ≡ p.rating_count
assign-rating_count key (words s) p h = ground arith
assign-rating_count key (amount a) p h = ground arith
assign-rating_count key (number n) p h = ground (arith, h)
assign-rating_count key (flag b) p h = ground arith
assign-rating_count key (object_id id) p h = ground arith
assign-rating_count key (instant at) p h = ground arith

assign-is_active :
    (key : String) (v : Value) (p : Product)
    → str_eq key "isActive" ≡ false
    → (assign key v p).is_active ≡ p.is_active
assign-is_active key (words s) p h = ground arith
assign-is_active key (amount a) p h = ground arith
assign-is_active key (number n) p h = ground arith
assign-is_active key (flag b) p h = ground (arith, h)
assign-is_active key (object_id id) p h = ground arith
assign-is_active key (instant at) p h = ground arith

assign-id : (key : String) (v : Value) (p : Product) → (assign key v p).id ≡ p.id
assign-id key (words s) p = ground arith
assign-id key (amount a) p = ground arith
assign-id key (number n) p = ground arith
assign-id key (flag b) p = ground arith
assign-id key (object_id id) p = ground arith
assign-id key (instant at) p = ground arith

assign_all-id : (body : Body) (p : Product) → (assign_all body p).id ≡ p.id
assign_all-id [] p = refl
assign_all-id ((key, v) ∷ body) p = assign_all-id body (assign key v p) ∙ assign-id key v p

-- The keys that the policy grants to nobody.
not_granted :
    (role : Role)
    → (names "seller" (allowed_for product role) ≡ false)
      × (names "tenant" (allowed_for product role) ≡ false)
      × (names "deletedAt" (allowed_for product role) ≡ false)
      × (names "ratingCount" (allowed_for product role) ≡ false)
not_granted Role.admin = (refl, refl, refl, refl)
not_granted Role.seller = (refl, refl, refl, refl)
not_granted Role.user = (refl, refl, refl, refl)

Role-cases :
    (role : Role) → (role ≡ Role.admin) ⊎ (names "isActive" (allowed_for product role) ≡ false)
Role-cases Role.admin = inl refl
Role-cases Role.seller = inr refl
Role-cases Role.user = inr refl

pub allowed-IsSameProduct :
    (role : Role) (body : Body) (p : Product)
    → IsSameProduct p (assign_all (picked (allowed_for product role) body) p)
allowed-IsSameProduct role body p =
    let allowed = allowed_for product role in
    let (seller, tenant, deleted_at, rating_count) = not_granted role in
    record {
      id = assign_all-id (picked allowed body) p;
      seller = assign_all-picked (λ q. q.seller) "seller" assign-seller allowed body p seller;
      tenant = assign_all-picked (λ q. q.tenant) "tenant" assign-tenant allowed body p tenant;
      deleted_at =
          assign_all-picked (λ q. q.deleted_at) "deletedAt" assign-deleted_at allowed body p
            deleted_at;
      rating_count =
          assign_all-picked (λ q. q.rating_count) "ratingCount" assign-rating_count allowed body p
            rating_count;
    }

pub allowed-is_active :
    (role : Role) (body : Body) (p : Product)
    → (role ≡ Role.admin)
      ⊎ ((assign_all (picked (allowed_for product role) body) p).is_active ≡ p.is_active)
allowed-is_active role body p = elim (Role-cases role) [
  | inl admin ↦ inl admin
  | inr hidden ↦ inr (
      assign_all-picked (λ q. q.is_active) "isActive" assign-is_active (allowed_for product role)
        body p hidden)
]

pub user_changes_nothing :
    (role : Role) (body : Body) (p : Product)
    → role ≡ Role.user
    → assign_all (picked (allowed_for product role) body) p ≡ p
user_changes_nothing role body p e = rw (e, picked_nothing body) refl
