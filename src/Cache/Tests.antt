-- ===== src/Cache/Tests.antt =====
-- A cache of two entries, and what a third does to it.
use ecommerce_rest_api.Base.{ℕ, ◌≤◌, ◌≡◌, ◌⊎◌, none, some, [], ◌∷◌, refl, arith, length}
use ecommerce_rest_api.Cache.{CacheEntry, Entries, get, set, del}
use ecommerce_rest_api.Cache.Lossy.{set-Forgets, view}

abbrev entry : ℕ → CacheEntry ℕ
entry n = record { value = n; expires_at = 100 }

abbrev full : Entries ℕ
full = ("products:1", entry 1) ∷ ("users:1", entry 2) ∷ []

set-evicts :
    set 2 "products:2" 3 1 50 full
    ≡ some (("users:1", entry 2) ∷ ("products:2", record { value = 3; expires_at = 1050 }) ∷ [])
unfolding set
set-evicts = refl

get-expired : get "users:1" 100 full ≡ (none, ("products:1", entry 1) ∷ [])
unfolding get
get-expired = refl

get-recent :
    get "products:1" 99 full ≡ (some 1, ("users:1", entry 2) ∷ ("products:1", entry 1) ∷ [])
unfolding get
get-recent = refl

del-products : del "products:" full ≡ ("users:1", entry 2) ∷ []
unfolding del
del-products = refl

set-Forgets_example :
    (kept : Entries ℕ) × (set 2 "products:2" 3 1 50 full ≡ some kept)
    × (length kept ≤ 2)
    × (view 60 kept "products:2" ≡ some 3)
    × ((view 60 kept "products:1" ≡ view 60 full "products:1") ⊎ (view 60 kept "products:1" ≡ none))
set-Forgets_example =
    set-Forgets 2 "products:2" "products:1" 3 1 50 60 full (omega arith) (omega arith) refl
