-- ===== src/Idempotency/Replay.antt =====
-- A completed request is answered from the record, and its handler does not run again.
use ecommerce_rest_api.Base.{
  ℕ, String, ◌≡◌, ◌<◌, ◌≤◌, ◌-◌, Bool, true, false, Option, none, some, List, [], ◌∷◌, ◌++◌, ◌==◌,
  ltb, leb, str_eq, str_eq_refl, refl, sym, ap, subst, All, inl, inr, Bool-cases, Option-cases,
  arith, ==_refl, ◌||◌, keep,
}
use ecommerce_rest_api.Domain.{ObjectId, Date}
use ecommerce_rest_api.Mongo.Reference.{first, modify_first, remove_first}
use ecommerce_rest_api.Mongo.{Collection, IsCollection}
use ecommerce_rest_api.Mongo.Laws.{reference_collection, IsCollection-eq}
use ecommerce_rest_api.Idempotency.{
  IdempotencyKey, Keys, Call, Decision, refused, answered, started, is_key, insert_free, create_key,
  with_existing, for_user, begin, completed_key, finish, remove_expired, is_abandoned, is_completed,
  stale_processing_ms,
}

-- A record is stored last, and nothing before it has the key of the call.
record IsStarted (call : Call) (user : ObjectId) (k : IdempotencyKey) (keys : Keys) : Type 0 where
  before : List IdempotencyKey
  stored : keys.documents ≡ before ++ k ∷ []
  fresh : first (is_key call user) before ≡ none
  older : All (λ x. x.id < k.id) before
  asked : call.user ≡ some user
  sized : (ltb call.key_length 16 || ltb 120 call.key_length) ≡ false
  mine : is_key call user k ≡ true
  same_hash : k.request_hash ≡ call.request_hash

first-concat :
    {A : Type 0} (p : A → Bool) (xs : List A) (x : A)
    → first p xs ≡ none
    → p x ≡ true
    → first p (xs ++ x ∷ []) ≡ some x
first-concat p [] x e h = rw h refl
first-concat p (y ∷ xs) x e h = elim (Bool-cases (p y)) [
  | inl hit ↦ let found : some y ≡ none = rw hit at e in cc
  | inr miss ↦ rw miss (first-concat p xs x (rw miss at e) h)
]

-- What is found first is found still when others are removed.
first-keep :
    {A : Type 0} (p q : A → Bool) (xs : List A) (x : A)
    → first p xs ≡ some x
    → q x ≡ true
    → first p (keep q xs) ≡ some x
first-keep p q [] x e h = e
first-keep p q (y ∷ xs) x e h = elim (Bool-cases (p y)) [
  | inl hit ↦
      let same : some y ≡ some x = rw (hit) at e in
      let stays : q y ≡ true = cc in rw (stays, hit) (same)
  | inr miss ↦
      let ih = first-keep p q xs x (rw (miss) at e) h in
      elim (Bool-cases (q y)) [ inl stays ↦ rw (stays, miss) ih | inr goes ↦ rw (goes) ih ]
]

modify_first-last :
    (f : IdempotencyKey → IdempotencyKey) (n : ℕ) (xs : List IdempotencyKey) (x : IdempotencyKey)
    → All (λ y. y.id < n) xs
    → x.id ≡ n
    → modify_first (λ k. k.id == n) f (xs ++ x ∷ []) ≡ xs ++ f x ∷ []
modify_first-last f n [] x a e = let hit : (x.id == n) ≡ true = ground arith in rw hit refl
modify_first-last f n (y ∷ xs) x a e =
    let miss : (y.id == n) ≡ false = ground arith in
    rw miss (ap (λ l. y ∷ l) (modify_first-last f n xs x a.1 e))

All-remove_first :
    (n : ℕ) (p : IdempotencyKey → Bool) (xs : List IdempotencyKey)
    → All (λ y. y.id < n) xs
    → All (λ y. y.id < n) (remove_first p xs)
All-remove_first n p [] a = a
All-remove_first n p (x ∷ xs) a = elim (Bool-cases (p x)) [
  | inl hit ↦ rw hit a.1
  | inr miss ↦ rw miss (a.0, All-remove_first n p xs a.1)
]

abbrev StartedIf : Call → ObjectId → Decision × Keys → Type 0
StartedIf call user (refused e, keys) = Unit
StartedIf call user (answered n s, keys) = Unit
StartedIf call user (started k, keys) = IsStarted call user k keys

module _ (call : Call) (user : ObjectId) (hours : ℕ) (now : Date) (asked : call.user ≡ some user)
    (sized : (ltb call.key_length 16 || ltb 120 call.key_length) ≡ false) where
  create_key-StartedIf :
      (keys : Keys)
      → All (λ x. x.id < keys.next_id) keys.documents
      → StartedIf call user (create_key reference_collection call user hours now keys)
  create_key-StartedIf keys a = elim (Option-cases (first (is_key call user) keys.documents)) [
    | inr (taken, e) ↦ rw (e, insert_free) tt
    | inl free ↦
        rw (free, insert_free)
          (record {
            before = keys.documents;
            stored = refl;
            fresh = free;
            older = a;
            asked = asked;
            sized = sized;
            mine = rw (str_eq_refl call.key, ==_refl user, str_eq_refl call.route) refl;
            same_hash = refl;
          })
  ]

  with_existing-StartedIf :
      (keys : Keys) (existing : Option IdempotencyKey)
      → All (λ x. x.id < keys.next_id) keys.documents
      → StartedIf call user (with_existing reference_collection call user hours now keys existing)
  with_existing-StartedIf keys none a = create_key-StartedIf keys a
  with_existing-StartedIf keys (some k) a =
      let freed : Keys = record keys {
        documents = remove_first (is_abandoned k.id) keys.documents;
      } in
      let retried =
        create_key-StartedIf freed
          (All-remove_first keys.next_id (is_abandoned k.id) keys.documents a) in
      elim (Bool-cases (str_eq k.request_hash call.request_hash)) [
        | inr other ↦ rw other tt
        | inl same ↦ elim (Bool-cases (is_completed k.status)) [
          | inl done ↦ rw (same, done) tt
          | inr unanswered ↦ elim (Bool-cases (ltb (now - k.created_at) stale_processing_ms)) [
            | inl busy ↦ rw (same, unanswered, busy) tt
            | inr stale ↦ rw (same, unanswered, stale) retried
          ]
        ]
      ]

-- A call whose handler may run has a user and a key of the right length.
abbrev MayStart : Call → Decision × Keys → Type 0
MayStart call (refused e, keys) = Unit
MayStart call (answered n s, keys) = Unit
MayStart call (started k, keys) = (user : ObjectId) × IsStarted call user k keys

StartedIf-MayStart :
    (call : Call) (user : ObjectId) (x : Decision × Keys) → StartedIf call user x → MayStart call x
StartedIf-MayStart call user (refused e, keys) h = tt
StartedIf-MayStart call user (answered n s, keys) h = tt
StartedIf-MayStart call user (started k, keys) h = (user, h)

for_user-MayStart :
    (hours : ℕ) (call : Call) (now : Date) (keys : Keys) (user : Option ObjectId)
    → call.user ≡ user
    → (ltb call.key_length 16 || ltb 120 call.key_length) ≡ false
    → All (λ x. x.id < keys.next_id) keys.documents
    → MayStart call (for_user reference_collection call hours now keys user)
for_user-MayStart hours call now keys none asked sized a = tt
for_user-MayStart hours call now keys (some user) asked sized a = StartedIf-MayStart call user _ (
    with_existing-StartedIf call user hours now asked sized keys
      (first (is_key call user) keys.documents) a)

beginning :
    (hours : ℕ) (call : Call) (now : Date) (keys : Keys)
    → All (λ x. x.id < keys.next_id) keys.documents
    → MayStart call (begin reference_collection hours call now keys)
unfolding begin
beginning hours call now keys a =
    elim (Bool-cases (ltb call.key_length 16 || ltb 120 call.key_length)) [
      | inl bad ↦ rw bad tt
      | inr sized ↦ rw sized (for_user-MayStart hours call now keys call.user refl sized a)
    ]

-- The answer to a second call with the same key, user, route and payload.
abbrev AnsweredAfter : (IdempotencyKey → Keys → Type 0) → Decision × Keys → Type 0
AnsweredAfter P (started k, keys) = P k keys
AnsweredAfter P _ = Unit

module _ (hours : ℕ) (call : Call) (removed later : Date) (status_code : ℕ) (payload : String)
    (fine : status_code < 500) (code : 0 < status_code) where
  abbrev IsAnswered : IdempotencyKey → Keys → Type 0
  IsAnswered k keys =
      let kept =
        remove_expired removed (finish reference_collection k.id status_code payload keys) in
      begin reference_collection hours call later kept ≡ (answered status_code payload, kept)

  -- The record is found again, completed.
  answered_by :
      (user : ObjectId) (k : IdempotencyKey) (keys : Keys)
      → first (is_key call user) keys.documents ≡ some (completed_key status_code payload k)
      → k.request_hash ≡ call.request_hash
      → for_user reference_collection call hours later keys (some user)
        ≡ (answered status_code payload, keys)
  answered_by user k keys found same =
      let positive : (status_code == 0) ≡ false = ground arith in
      rw (found, with_existing, same, str_eq_refl call.request_hash, positive) refl

  replaying :
      (user : ObjectId) (k : IdempotencyKey) (keys : Keys)
      → IsStarted call user k keys
      → removed ≤ later
      → later < k.expires_at
      → IsAnswered k keys
  unfolding begin finish remove_expired
  replaying user k keys h past live =
      let small : leb 500 status_code ≡ false = ground arith in
      let after : Keys = record keys {
        documents = h.before ++ completed_key status_code payload k ∷ [];
      } in
      let last =
        modify_first-last (completed_key status_code payload) k.id h.before k h.older refl in
      let done : finish reference_collection k.id status_code payload keys ≡ after =
        rw (small, h.stored) (ap (λ ks. record keys { documents = ks }) last) in
      let kept = remove_expired removed after in
      let found =
        first-keep (is_key call user) (λ x. ltb removed x.expires_at) after.documents
          (completed_key status_code payload k)
          (first-concat (is_key call user) h.before (completed_key status_code payload k) h.fresh
            h.mine)
          (ground arith) in
      let again : for_user reference_collection call hours later kept call.user
          ≡ (answered status_code payload, kept) =
        subst
          (λ o.
            for_user reference_collection call hours later kept o
            ≡ (answered status_code payload, kept))
          (sym h.asked) (answered_by user k kept found h.same_hash) in
      subst
        (λ ks.
          begin reference_collection hours call later (remove_expired removed ks)
          ≡ (answered status_code payload, remove_expired removed ks))
        (sym done) (rw h.sized again)

abbrev pub ReplaysFrom :
    Collection IdempotencyKey
    → ℕ
    → Call
    → Date
    → Date
    → Date
    → ℕ
    → String
    → Keys
    → IdempotencyKey
    → Keys
    → Type 0
ReplaysFrom c hours call now removed later status_code payload before k keys =
    begin c hours call now before ≡ (started k, keys)
    → removed ≤ later
    → later < k.expires_at
    → (let kept = remove_expired removed (finish c k.id status_code payload keys) in
        begin c hours call later kept ≡ (answered status_code payload, kept))

replays :
    (hours : ℕ) (call : Call) (now removed later : Date) (status_code : ℕ) (payload : String)
    (before : Keys) (k : IdempotencyKey) (keys : Keys)
    → status_code < 500
    → 0 < status_code
    → All (λ x. x.id < before.next_id) before.documents
    → ReplaysFrom reference_collection hours call now removed later status_code payload before k
        keys
replays hours call now removed later status_code payload before k keys fine code a ran past live =
    let (user, h) = subst (MayStart call) ran (beginning hours call now before a) in
    replaying hours call removed later status_code payload fine code user k keys h past live

-- When the middleware has let a request through and its handler has answered with a status below
-- 500, the same request (key, user, route and payload) gets that status and payload at any time
-- before the record's expiry, also after the server has removed the records that had expired by
-- then, and nothing is written: the handler does not run again. Ids are below the next one.
pub begin-finish :
    (c : Collection IdempotencyKey) (hours : ℕ) (call : Call) (now removed later : Date)
    (status_code : ℕ) (payload : String) (before : Keys) (k : IdempotencyKey) (keys : Keys)
    → IsCollection c
    → status_code < 500
    → 0 < status_code
    → All (λ x. x.id < before.next_id) before.documents
    → begin c hours call now before ≡ (started k, keys)
    → removed ≤ later
    → later < k.expires_at
    → (let kept = remove_expired removed (finish c k.id status_code payload keys) in
        begin c hours call later kept ≡ (answered status_code payload, kept))
begin-finish c hours call now removed later status_code payload before k keys h fine code a =
    subst (λ c. ReplaysFrom c hours call now removed later status_code payload before k keys)
      (sym (IsCollection-eq c h))
      (replays hours call now removed later status_code payload before k keys fine code a)
