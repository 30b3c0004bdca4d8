-- ===== src/Audit.antt =====
-- The tamper-proof trail of src/utils/auditLogger.ts. SHA-256 over the entry's JSON is an argument
-- (`digest`), and so is the collection; other processes may append between the reading of the head
-- and the insertion, `others` says what at each attempt. A process's own writes wait for each
-- other. The plain log file is not modelled; metadata is its JSON text.
pub mod Links
pub mod Chain
mod Tests
use ecommerce_rest_api.Base.{
  ℕ, suc, zero, String, ◌+◌, ◌-◌, Bool, true, false, ◌||◌, Option, none, some, List, [], ◌∷◌, ◌++◌,
  ◌≡◌, if◌then◌else◌, ltb, ◌==◌, any, str_eq,
}
use ecommerce_rest_api.Domain.{ObjectId}
use ecommerce_rest_api.Mongo.Reference.{inserted}

pub record AuditBody : Type 0 where
  pub sequence : ℕ
  pub action : String
  pub actor : Option ObjectId
  pub tenant : String
  pub request_id : Option String
  pub ip : Option String
  pub metadata : String
  pub previous_hash : String

pub record AuditLog : Type 0 where
  pub body : AuditBody
  pub hash : String

-- What the trail takes from the request: the tenants of the request and of its user.
pub record AuditRequest : Type 0 where
  pub actor : Option ObjectId
  pub tenant : Option String
  pub user_tenant : Option String
  pub request_id : Option String
  pub ip : Option String

-- The entry with the highest sequence.
abbrev newest : AuditLog → Option AuditLog → Option AuditLog
newest a none = some a
newest a (some b) = if ltb a.body.sequence b.body.sequence then some b else some a

abbrev pub latest : List AuditLog → Option AuditLog
latest [] = none
latest (a ∷ logs) = newest a (latest logs)

abbrev pub collides : AuditLog → AuditLog → Bool
collides a b = b.body.sequence == a.body.sequence || str_eq b.hash a.hash

-- The collection's two calls: `findOne().sort("-sequence")`, and `create`, which answers `none` for
-- a duplicate key.
pub record AuditStore : Type 0 where
  pub last : List AuditLog → Option AuditLog
  pub create : AuditLog → List AuditLog → Option (List AuditLog)

-- The unique indexes on `sequence` and `hash` are the only reason for a refusal.
pub record IsAuditStore (store : AuditStore) : Type 0 where
  pub last_lem : (logs : List AuditLog) → store.last logs ≡ latest logs
  pub create_lem :
      (a : AuditLog) (logs : List AuditLog)
      → store.create a logs ≡ (if any (collides a) logs then none else some (inserted a logs))

-- `a || b || d` on texts that may be missing
abbrev or_text : Option String → String → String
or_text none d = d
or_text (some a) d = if str_eq a "" then d else a

abbrev pub sequence_of : Option AuditLog → ℕ
sequence_of none = 1
sequence_of (some a) = a.body.sequence + 1

abbrev pub previous_hash_of : Option AuditLog → String
previous_hash_of none = "GENESIS"
previous_hash_of (some a) = or_text (some a.hash) "GENESIS"

unfoldable pub new_entry :
    (AuditBody → String) → String → AuditRequest → String → Option AuditLog → AuditLog
new_entry digest action req metadata last =
    let body : AuditBody = record {
      sequence = sequence_of last;
      action = action;
      actor = req.actor;
      tenant = or_text req.tenant (or_text req.user_tenant "default");
      request_id = req.request_id;
      ip = req.ip;
      metadata = metadata;
      previous_hash = previous_hash_of last;
    } in
    record { body = body; hash = digest body }

-- The entry, none for a duplicate key, and the collection after.
pub data Written : Type 0 where
  written : AuditLog → Written
  duplicate : Written

abbrev pub stored : AuditLog → List AuditLog → Option (List AuditLog) → Written × List AuditLog
stored a logs none = (duplicate, logs)
stored a logs (some logs') = (written a, logs')

-- One attempt, while other processes append `more`.
unfoldable pub append_audit_entry :
    (AuditBody → String)
    → AuditStore
    → String
    → AuditRequest
    → String
    → List AuditLog
    → List AuditLog
    → Written × List AuditLog
unfolding new_entry
append_audit_entry digest store action req metadata more logs =
    let entry = new_entry digest action req metadata (store.last logs) in
    stored entry (logs ++ more) (store.create entry (logs ++ more))

abbrev pub or_retry :
    Written × List AuditLog → (List AuditLog → Written × List AuditLog) → Written × List AuditLog
or_retry (written a, logs) again = (written a, logs)
or_retry (duplicate, logs) again = again logs

-- `attempts` are those left after this one.
unfoldable pub write_attempts :
    (AuditBody → String)
    → AuditStore
    → String
    → AuditRequest
    → String
    → (ℕ → List AuditLog → List AuditLog)
    → ℕ
    → List AuditLog
    → Written × List AuditLog
unfolding append_audit_entry
write_attempts digest store action req metadata others zero logs =
    append_audit_entry digest store action req metadata (others zero logs) logs
write_attempts digest store action req metadata others (suc attempts) logs =
    or_retry (append_audit_entry digest store action req metadata (others (suc attempts) logs) logs)
      (write_attempts digest store action req metadata others attempts)

abbrev pub max_attempts : ℕ
max_attempts = 5

unfoldable pub write_tamper_proof_audit :
    (AuditBody → String)
    → AuditStore
    → String
    → AuditRequest
    → String
    → (ℕ → List AuditLog → List AuditLog)
    → List AuditLog
    → Written × List AuditLog
unfolding write_attempts
write_tamper_proof_audit digest store action req metadata others logs =
    write_attempts digest store action req metadata others (max_attempts - 1) logs
