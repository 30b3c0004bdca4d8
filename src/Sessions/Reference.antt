-- ===== src/Sessions/Reference.antt =====
-- The store over the reference collections, which stands for every store of the server.
use ecommerce_rest_api.Base.{◌≡◌, sym, subst}
use ecommerce_rest_api.Mongo.Laws.{
  reference_collection, reference_collection-IsCollection, IsCollection-eq,
}
use ecommerce_rest_api.Sessions.{Store, IsStore}

abbrev pub reference_store : Store
reference_store = record {
  users = reference_collection;
  refresh_tokens = reference_collection;
  sessions = reference_collection;
  signals = reference_collection;
  tenants = reference_collection;
}

pub reference_store-IsStore : IsStore reference_store
reference_store-IsStore = record {
  users = reference_collection-IsCollection;
  refresh_tokens = reference_collection-IsCollection;
  sessions = reference_collection-IsCollection;
  signals = reference_collection-IsCollection;
  tenants = reference_collection-IsCollection;
}

IsStore-eq : (store : Store) → IsStore store → store ≡ reference_store
IsStore-eq s h = λ i. record {
  users = IsCollection-eq s.users h.users i;
  refresh_tokens = IsCollection-eq s.refresh_tokens h.refresh_tokens i;
  sessions = IsCollection-eq s.sessions h.sessions i;
  signals = IsCollection-eq s.signals h.signals i;
  tenants = IsCollection-eq s.tenants h.tenants i;
}

pub by_store {ℓ} :
    (P : Store → Type ℓ) (store : Store) → IsStore store → P reference_store → P store
by_store P store h r = subst P (sym (IsStore-eq store h)) r
