-- ===== src/Audit/Links.antt =====
-- The links of the audit trail, and the entry that goes on from its end.
use ecommerce_rest_api.Base.{
  ℕ, suc, zero, String, ◌+◌, ◌<◌, ◌≡◌, true, false, none, some, List, [], ◌∷◌, ◌++◌, if◌then◌else◌,
  ltb, any, str_eq, length, refl, ap, ◌∙◌, arith,
}
use ecommerce_rest_api.Mongo.Reference.{inserted}
use ecommerce_rest_api.Audit.{
  AuditBody, AuditLog, AuditRequest, AuditStore, IsAuditStore, latest, collides, previous_hash_of,
  new_entry,
}

module _ (digest : AuditBody → String) where
  -- Entries that go on from the hash `h` and the sequence `s`.
  abbrev pub IsChain : String → ℕ → List AuditLog → Type 0
  IsChain h s [] = Unit
  IsChain h s (a ∷ logs) =
      (a.body.sequence ≡ suc s)
      × (a.body.previous_hash ≡ h)
      × (a.hash ≡ digest a.body)
      × IsChain a.hash (suc s) logs

abbrev pub end_hash : String → List AuditLog → String
end_hash h [] = h
end_hash h (a ∷ logs) = end_hash a.hash logs

abbrev pub reference_audit : AuditStore
reference_audit = record {
  last = latest;
  create = λ a logs. if any (collides a) logs then none else some (inserted a logs);
}

pub reference_audit-IsAuditStore : IsAuditStore reference_audit
reference_audit-IsAuditStore = record { last_lem = λ logs. refl; create_lem = λ a logs. refl }

module _ (digest : AuditBody → String) where
  pub IsChain-concat :
      (h : String) (s : ℕ) (logs : List AuditLog) (a : AuditLog)
      → IsChain digest h s logs
      → a.body.sequence ≡ suc (s + length logs)
      → a.body.previous_hash ≡ end_hash h logs
      → a.hash ≡ digest a.body
      → IsChain digest h s (inserted a logs)
  IsChain-concat h s [] a c n p d = (omega (arith, n), p, d, tt)
  IsChain-concat h s (b ∷ logs) a (n', p', d', c) n p d =
      (n', p', d', IsChain-concat b.hash (suc s) logs a c (omega (arith, n)) p d)

  latest-IsChain :
      (h : String) (s : ℕ) (b : AuditLog) (logs : List AuditLog)
      → IsChain digest h s (b ∷ logs)
      → (a : AuditLog) × (latest (b ∷ logs) ≡ some a)
        × (a.body.sequence ≡ s + length (b ∷ logs))
        × (a.hash ≡ end_hash h (b ∷ logs))
        × (a.hash ≡ digest a.body)
  latest-IsChain h s b [] (n, p, d, c) = (b, refl, omega (arith, n), refl, d)
  latest-IsChain h s b (b' ∷ logs) (n, p, d, c) =
      let (a, e, n', p', d') = latest-IsChain b.hash (suc s) b' logs c in
      let later : ltb b.body.sequence a.body.sequence ≡ true = ground (arith, n, n') in
      (a, rw (e, later) refl, omega (arith, n'), p', d')

  taken :
      (h : String) (s n : ℕ) (a : AuditLog) (logs : List AuditLog)
      → IsChain digest h s logs
      → a.body.sequence ≡ suc (s + n)
      → n < length logs
      → any (collides a) logs ≡ true
  taken h s n a [] c e l = absurd (omega (arith, l))
  taken h s zero a (b ∷ logs) (n', p', d', c) e l = ground (arith, e, n')
  taken h s (suc n) a (b ∷ logs) (n', p', d', c) e l =
      let ih = taken b.hash (suc s) n a logs c (omega (arith, e)) (omega (arith, l)) in
      ground (arith, ih)

  previous_hash_of-some :
      (a : AuditLog)
      → ((b : AuditBody) → str_eq (digest b) "" ≡ false)
      → a.hash ≡ digest a.body
      → previous_hash_of (some a) ≡ a.hash
  previous_hash_of-some a long d = rw (ap (λ x. str_eq x "") d ∙ long a.body) refl

  -- The new entry goes on from the end of the trail that it was made for.
  pub new_entry-IsNext :
      (action metadata : String) (req : AuditRequest) (logs : List AuditLog)
      → ((b : AuditBody) → str_eq (digest b) "" ≡ false)
      → IsChain digest "GENESIS" 0 logs
      → ((new_entry digest action req metadata (latest logs)).body.sequence ≡ suc (length logs))
        × ((new_entry digest action req metadata (latest logs)).body.previous_hash
            ≡ end_hash "GENESIS" logs)
  unfolding new_entry
  new_entry-IsNext action metadata req [] long c = (refl, refl)
  new_entry-IsNext action metadata req (b ∷ logs) long c =
      let (a, e, n, p, d) = latest-IsChain "GENESIS" 0 b logs c in
      rw (e) (omega (arith, n), previous_hash_of-some a long d ∙ p)

  length-concat : (logs more : List AuditLog) → length (logs ++ more) ≡ length logs + length more
  length-concat [] more = omega arith
  length-concat (a ∷ logs) more = omega (arith, length-concat logs more)

  pub concat_nil : (logs : List AuditLog) → logs ++ [] ≡ logs
  concat_nil [] = refl
  concat_nil (a ∷ logs) = ap (λ rest. a ∷ rest) (concat_nil logs)

  pub concat_assoc : (logs bs cs : List AuditLog) → (logs ++ bs) ++ cs ≡ logs ++ (bs ++ cs)
  concat_assoc [] bs cs = refl
  concat_assoc (a ∷ logs) bs cs = ap (λ rest. a ∷ rest) (concat_assoc logs bs cs)

  -- An entry for the end of the trail fits only if nobody appended.
  pub alone :
      (a : AuditLog) (logs more : List AuditLog)
      → a.body.sequence ≡ suc (length logs)
      → IsChain digest "GENESIS" 0 (logs ++ more)
      → any (collides a) (logs ++ more) ≡ false
      → more ≡ []
  alone a logs [] n c free = refl
  alone a logs (b ∷ more) n c free =
      let longer = length-concat logs (b ∷ more) in
      let hit =
        taken "GENESIS" 0 (length logs) a (logs ++ (b ∷ more)) c (omega (arith, n))
          (omega (arith, longer)) in
      absurd (cc)
