-- ===== src/Idempotency/Tests.antt =====
-- Witnesses for idempotency keys.
use ecommerce_rest_api.Base.{◌≡◌, some, [], refl, arith}
use ecommerce_rest_api.Mongo.Laws.{reference_collection, reference_collection-IsCollection}
use ecommerce_rest_api.Idempotency.{
  IdempotencyKey, Keys, Call, answered, new_key, begin, finish, remove_expired,
}
use ecommerce_rest_api.Idempotency.Replay.{begin-finish}

abbrev no_keys : Keys
no_keys = record { documents = []; next_id = 1 }

abbrev pay_call : Call
pay_call = record {
  key = "0123456789abcdef";
  key_length = 16;
  user = some 7;
  route = "/checkout";
  request_hash = "h";
}

abbrev pay_key : IdempotencyKey
pay_key = new_key pay_call 7 24 1000 1

abbrev running : Keys
unfolding begin
running = (begin reference_collection 24 pay_call 1000 no_keys).1

begin-finish_example :
    (let kept = remove_expired 8000 (finish reference_collection 1 201 "created" running) in
      begin reference_collection 24 pay_call 9000 kept ≡ (answered 201 "created", kept))
unfolding begin running
begin-finish_example =
    begin-finish reference_collection 24 pay_call 1000 8000 9000 201 "created" no_keys pay_key
      running reference_collection-IsCollection (omega arith) (omega arith) tt refl (omega arith)
      (omega arith)
