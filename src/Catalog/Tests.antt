-- ===== src/Catalog/Tests.antt =====
-- A seller edits a product of their own.
use ecommerce_rest_api.Base.{ℕ, ◌≡◌, true, [], ◌∷◌, refl}
use ecommerce_rest_api.Domain.{Role}
use ecommerce_rest_api.Access.{AuthUser}
use ecommerce_rest_api.Cache.{Entries}
use ecommerce_rest_api.Catalog.{Body, words, object_id, flag, pick_allowed_fields, product}

abbrev seller : AuthUser
seller = record { id = 8; role = Role.seller }

abbrev changes : Body
changes =
    ("name", words "Lamp")
    ∷ ("isActive", flag true)
    ∷ ("seller", object_id 1)
    ∷ ("tenant", words "other")
    ∷ []

pick-seller : pick_allowed_fields product Role.seller changes ≡ ("name", words "Lamp") ∷ []
unfolding pick_allowed_fields
pick-seller = refl

abbrev cached : Entries ℕ
cached = ("products:default:{}", record { value = 1; expires_at = 10 }) ∷ []
