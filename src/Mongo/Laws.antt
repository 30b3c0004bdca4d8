-- ===== src/Mongo/Laws.antt =====
-- A server that keeps its documented behaviour is the reference server, so what holds over the
-- reference holds over every such server.
use ecommerce_rest_api.Base.{◌≡◌, sym, subst, fun_ext, refl}
use ecommerce_rest_api.Mongo.{Collection, IsCollection, Mongo, IsMongo}
use ecommerce_rest_api.Mongo.Reference.{
  first, matching, count_of, modify_first, modify_all, remove_first, inserted, modified_first,
  modified_count,
}

abbrev pub reference_collection : {A : Type 0} → Collection A
reference_collection = record {
  find_one = first;
  find = matching;
  count_documents = count_of;
  create = inserted;
  find_one_and_update = λ p f xs. (modified_first p f xs, modify_first p f xs);
  update_one = λ p f xs. (modified_count p f xs, modify_first p f xs);
  update_many = modify_all;
  delete_one = remove_first;
}

abbrev pub reference : Mongo
reference = record {
  products = reference_collection;
  carts = reference_collection;
  coupons = reference_collection;
  redemptions = reference_collection;
  orders = reference_collection;
  reservations = reference_collection;
  payment_events = reference_collection;
  domain_events = reference_collection;
  shipments = reference_collection;
  tenants = reference_collection;
  payment_signals = reference_collection;
}

pub reference_collection-IsCollection : {A : Type 0} → IsCollection {A = A} reference_collection
reference_collection-IsCollection = record {
  find_one_lem = λ p xs. refl;
  find_lem = λ p xs. refl;
  count_documents_lem = λ p xs. refl;
  create_lem = λ a xs. refl;
  find_one_and_update_lem = λ p f xs. refl;
  update_one_lem = λ p f xs. refl;
  update_many_lem = λ p f xs. refl;
  delete_one_lem = λ p xs. refl;
}

pub reference-IsMongo : IsMongo reference
reference-IsMongo = record {
  products = reference_collection-IsCollection;
  carts = reference_collection-IsCollection;
  coupons = reference_collection-IsCollection;
  redemptions = reference_collection-IsCollection;
  orders = reference_collection-IsCollection;
  reservations = reference_collection-IsCollection;
  payment_events = reference_collection-IsCollection;
  domain_events = reference_collection-IsCollection;
  shipments = reference_collection-IsCollection;
  tenants = reference_collection-IsCollection;
  payment_signals = reference_collection-IsCollection;
}

pub IsCollection-eq :
    {A : Type 0} (c : Collection A) → IsCollection c → c ≡ reference_collection {A = A}
IsCollection-eq c h = λ i. record {
  find_one = fun_ext (λ p. fun_ext (h.find_one_lem p)) i;
  find = fun_ext (λ p. fun_ext (h.find_lem p)) i;
  count_documents = fun_ext (λ p. fun_ext (h.count_documents_lem p)) i;
  create = fun_ext (λ a. fun_ext (h.create_lem a)) i;
  find_one_and_update = fun_ext (λ p. fun_ext (λ f. fun_ext (h.find_one_and_update_lem p f))) i;
  update_one = fun_ext (λ p. fun_ext (λ f. fun_ext (h.update_one_lem p f))) i;
  update_many = fun_ext (λ p. fun_ext (λ f. fun_ext (h.update_many_lem p f))) i;
  delete_one = fun_ext (λ p. fun_ext (h.delete_one_lem p)) i;
}

IsMongo-eq : (m : Mongo) → IsMongo m → m ≡ reference
IsMongo-eq m h = λ i. record {
  products = IsCollection-eq m.products h.products i;
  carts = IsCollection-eq m.carts h.carts i;
  coupons = IsCollection-eq m.coupons h.coupons i;
  redemptions = IsCollection-eq m.redemptions h.redemptions i;
  orders = IsCollection-eq m.orders h.orders i;
  reservations = IsCollection-eq m.reservations h.reservations i;
  payment_events = IsCollection-eq m.payment_events h.payment_events i;
  domain_events = IsCollection-eq m.domain_events h.domain_events i;
  shipments = IsCollection-eq m.shipments h.shipments i;
  tenants = IsCollection-eq m.tenants h.tenants i;
  payment_signals = IsCollection-eq m.payment_signals h.payment_signals i;
}

pub by_reference {ℓ} : (P : Mongo → Type ℓ) (m : Mongo) → IsMongo m → P reference → P m
by_reference P m h r = subst P (sym (IsMongo-eq m h)) r
