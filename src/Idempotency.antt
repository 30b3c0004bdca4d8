-- ===== src/Idempotency.antt =====
-- src/middlewares/idempotency.ts, on the collection of src/models/idempotencyKey.ts, whose index on
-- key, user and route is unique. `begin` is the middleware up to `next()`, and `finish` what
-- `res.json` writes when the handler answers; a failure to write is only logged there. The index on
-- `expiresAt` makes the server remove expired records now and then, which is a step of its own.
pub mod Replay
mod Tests
use ecommerce_rest_api.Base.{
  ℕ, String, ◌+◌, ◌-◌, ◌*◌, Bool, true, false, not, ◌&&◌, ◌||◌, Option, none, some, List,
  if◌then◌else◌, ◌==◌, ltb, leb, str_eq, is_some, keep,
}
use ecommerce_rest_api.Domain.{ObjectId, Date}
use ecommerce_rest_api.Errors.{AppError, bad_request, un_authorized, to_many_request}
use ecommerce_rest_api.Mongo.{Collection}

pub data KeyStatus : Type 0 where
  processing completed failed : KeyStatus

pub record IdempotencyKey : Type 0 where
  pub id : ObjectId
  pub key : String
  pub user : ObjectId
  pub route : String
  pub request_hash : String
  pub status : KeyStatus
  pub status_code : ℕ
  pub response : String
  pub created_at : Date
  pub expires_at : Date

-- The collection, and the ObjectId of the next document.
pub record Keys : Type 0 where
  pub documents : List IdempotencyKey
  pub next_id : ObjectId

-- What the middleware reads of a request; `key_length` is `key.length`.
pub record Call : Type 0 where
  pub key : String
  pub key_length : ℕ
  pub user : Option ObjectId
  pub route : String
  pub request_hash : String

-- The middleware's end: an error, a stored answer, or the handler runs with its record.
pub data Decision : Type 0 where
  refused : AppError → Decision
  answered : ℕ → String → Decision
  started : IdempotencyKey → Decision

abbrev pub is_key : Call → ObjectId → IdempotencyKey → Bool
is_key call user k = str_eq k.key call.key && (k.user == user && str_eq k.route call.route)

abbrev pub is_completed : KeyStatus → Bool
is_completed completed = true
is_completed _ = false

abbrev pub is_processing : KeyStatus → Bool
is_processing processing = true
is_processing _ = false

abbrev pub stale_processing_ms : ℕ
stale_processing_ms = 2 * 60 * 1000

abbrev pub new_key : Call → ObjectId → ℕ → Date → ObjectId → IdempotencyKey
new_key call user hours now id = record {
  id = id;
  key = call.key;
  user = user;
  route = call.route;
  request_hash = call.request_hash;
  status = processing;
  status_code = 0;
  response = "";
  created_at = now;
  expires_at = now + hours * 60 * 60 * 1000;
}

-- The insertion, by what the unique index finds under the key.
abbrev pub insert_free :
    Collection IdempotencyKey → IdempotencyKey → Option IdempotencyKey → Keys → Decision × Keys
insert_free c k (some taken) keys =
    (refused (to_many_request "Duplicate idempotency request"), keys)
insert_free c k none keys =
    (started k, record { documents = c.create k keys.documents; next_id = keys.next_id + 1 })

abbrev pub create_key :
    Collection IdempotencyKey → Call → ObjectId → ℕ → Date → Keys → Decision × Keys
create_key c call user hours now keys =
    insert_free c (new_key call user hours now keys.next_id)
      (c.find_one (is_key call user) keys.documents) keys

abbrev pub is_abandoned : ObjectId → IdempotencyKey → Bool
is_abandoned id k = k.id == id && is_processing k.status

-- `existing`, by the order of the checks.
abbrev pub with_existing :
    Collection IdempotencyKey
    → Call
    → ObjectId
    → ℕ
    → Date
    → Keys
    → Option IdempotencyKey
    → Decision × Keys
with_existing c call user hours now keys none = create_key c call user hours now keys
with_existing c call user hours now keys (some k) =
    let retried =
      create_key c call user hours now
        (record keys { documents = c.delete_one (is_abandoned k.id) keys.documents }) in
    if str_eq k.request_hash call.request_hash
    then (if is_completed k.status
        then (answered (if k.status_code == 0 then 200 else k.status_code) k.response, keys)
        else if ltb (now - k.created_at) stale_processing_ms
        then (
          refused (to_many_request "Request with this idempotency key is still processing"),
          keys,
        )
        else retried)
    else (refused (bad_request "Idempotency key reused with a different payload"), keys)

abbrev pub for_user :
    Collection IdempotencyKey → Call → ℕ → Date → Keys → Option ObjectId → Decision × Keys
for_user c call hours now keys none = (refused (un_authorized "unAuthorized"), keys)
for_user c call hours now keys (some user) =
    with_existing c call user hours now keys (c.find_one (is_key call user) keys.documents)

-- `hours` is IDEMPOTENCY_TTL_HOURS.
unfoldable pub begin : Collection IdempotencyKey → ℕ → Call → Date → Keys → Decision × Keys
begin c hours call now keys =
    if ltb call.key_length 16 || ltb 120 call.key_length
    then (refused (bad_request "A valid Idempotency-Key header is required"), keys)
    else for_user c call hours now keys call.user

-- `index: { expires: 0 }`: what the server's removal of expired records leaves at a time.
unfoldable pub remove_expired : Date → Keys → Keys
remove_expired now keys = record keys {
  documents = keep (λ k. ltb now k.expires_at) keys.documents;
}

abbrev pub completed_key : ℕ → String → IdempotencyKey → IdempotencyKey
completed_key status_code payload k = record k {
  response = payload;
  status_code = status_code;
  status = completed;
}

unfoldable pub finish : Collection IdempotencyKey → ObjectId → ℕ → String → Keys → Keys
finish c id status_code payload keys = record keys {
  documents =
      if leb 500 status_code
      then c.delete_one (λ k. k.id == id) keys.documents
      else (c.update_one (λ k. k.id == id) (completed_key status_code payload) keys.documents).1;
}
