-- ===== src/Carts/Tests.antt =====
-- Witnesses for carts.
use ecommerce_rest_api.Base.{All, ◌≢◌, arith}
use ecommerce_rest_api.Mongo.Documents.{IsUnique}
use ecommerce_rest_api.Mongo.Laws.{reference, reference-IsMongo}
use ecommerce_rest_api.Sample.{sample_db, shop}
use ecommerce_rest_api.Carts.{CartItemInput, add_item}
use ecommerce_rest_api.Carts.Lines.{AddedIfOk, add_item-AddedIfOk}

abbrev one_more : CartItemInput
one_more = record { user_id = 7; tenant = shop; product_id = 1; quantity = 1 }

carts-IsUnique : IsUnique (λ c. c.id) sample_db.carts
carts-IsUnique = ground arith

carts-unused : All (λ c. c.id ≢ sample_db.next_id) sample_db.carts
carts-unused = ground arith

add_item-AddedIfOk_example : AddedIfOk one_more sample_db (add_item reference one_more sample_db)
add_item-AddedIfOk_example =
    add_item-AddedIfOk reference one_more sample_db reference-IsMongo tt carts-IsUnique carts-unused
