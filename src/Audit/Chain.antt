-- ===== src/Audit/Chain.antt =====
-- The trail is one chain: every entry holds the digest of the one before it.
use ecommerce_rest_api.Base.{
  ℕ, suc, zero, String, ◌+◌, ◌<◌, ◌≡◌, false, List, [], ◌∷◌, ◌++◌, any, str_eq, str_eq_iff, length,
  refl, sym, ap, fun_ext, subst, ◌∙◌, arith, Bool-cases, inl, inr,
}
use ecommerce_rest_api.Mongo.Reference.{inserted}
use ecommerce_rest_api.Audit.{
  AuditBody, AuditLog, AuditRequest, AuditStore, IsAuditStore, latest, collides, new_entry, Written,
  written, duplicate, append_audit_entry, or_retry, write_attempts, write_tamper_proof_audit,
}
use ecommerce_rest_api.Audit.Links.{
  IsChain, end_hash, reference_audit, IsChain-concat, new_entry-IsNext, concat_nil, concat_assoc,
  alone,
}

module _ (digest : AuditBody → String) where
  -- Whether written or not: the trail is a chain, and goes on from what it was.
  pub data IsKept (logs : List AuditLog) : Written × List AuditLog → Type 0 where
    is_written :
        (a : AuditLog) (more : List AuditLog)
        → IsChain digest "GENESIS" 0 (inserted a (logs ++ more))
        → IsKept logs (written a, inserted a (logs ++ more))
    is_refused :
        (more : List AuditLog)
        → IsChain digest "GENESIS" 0 (logs ++ more)
        → IsKept logs (duplicate, logs ++ more)

  IsKept-concat :
      (logs more : List AuditLog) (outcome : Written × List AuditLog)
      → IsKept (logs ++ more) outcome
      → IsKept logs outcome
  IsKept-concat logs more _ (is_written a more' c) =
      let same = concat_assoc digest logs more more' in
      subst (λ rest. IsKept logs (written a, inserted a rest)) (sym same)
        (is_written a (more ++ more')
          (subst (λ rest. IsChain digest "GENESIS" 0 (inserted a rest)) same c))
  IsKept-concat logs more _ (is_refused more' c) =
      let same = concat_assoc digest logs more more' in
      subst (λ rest. IsKept logs (duplicate, rest)) (sym same)
        (is_refused (more ++ more') (subst (IsChain digest "GENESIS" 0) same c))

  append_audit_entry-IsKept :
      (action metadata : String) (req : AuditRequest) (more logs : List AuditLog)
      → ((b : AuditBody) → str_eq (digest b) "" ≡ false)
      → IsChain digest "GENESIS" 0 logs
      → IsChain digest "GENESIS" 0 (logs ++ more)
      → IsKept logs (append_audit_entry digest reference_audit action req metadata more logs)
  unfolding append_audit_entry
  append_audit_entry-IsKept action metadata req more logs long c c' =
      let entry = new_entry digest action req metadata (latest logs) in
      let (n, p) = new_entry-IsNext digest action metadata req logs long c in
      elim (Bool-cases (any (collides entry) (logs ++ more))) [
        | inl hit ↦ rw (hit) (is_refused more c')
        | inr free ↦ rw (free) (
            is_written entry more (
              subst (λ rest. IsChain digest "GENESIS" 0 (inserted entry rest))
                (sym (concat_nil digest logs)
                  ∙ ap (λ rest. logs ++ rest) (sym (alone digest entry logs more n c' free)))
                (IsChain-concat digest "GENESIS" 0 logs entry c (omega (arith, n)) p refl)))
      ]

  or_retry-IsKept :
      (logs : List AuditLog) (outcome : Written × List AuditLog)
      (again : List AuditLog → Written × List AuditLog)
      → IsKept logs outcome
      → ((logs' : List AuditLog) → IsChain digest "GENESIS" 0 logs' → IsKept logs' (again logs'))
      → IsKept logs (or_retry outcome again)
  or_retry-IsKept logs _ again (is_written a more c) k = is_written a more c
  or_retry-IsKept logs _ again (is_refused more c) k =
      IsKept-concat logs more _ (k (logs ++ more) c)

  attempts-IsKept :
      (action metadata : String) (req : AuditRequest) (others : ℕ → List AuditLog → List AuditLog)
      (attempts : ℕ) (logs : List AuditLog)
      → ((b : AuditBody) → str_eq (digest b) "" ≡ false)
      → ((n : ℕ) (logs : List AuditLog)
          → IsChain digest "GENESIS" 0 logs
          → IsChain digest "GENESIS" 0 (logs ++ others n logs))
      → IsChain digest "GENESIS" 0 logs
      → IsKept logs (write_attempts digest reference_audit action req metadata others attempts logs)
  unfolding write_attempts
  attempts-IsKept action metadata req others zero logs long fair c =
      append_audit_entry-IsKept action metadata req _ logs long c (fair zero logs c)
  attempts-IsKept action metadata req others (suc n) logs long fair c =
      or_retry-IsKept logs _ _
        (append_audit_entry-IsKept action metadata req _ logs long c (fair (suc n) logs c))
        (λ logs' c'. attempts-IsKept action metadata req others n logs' long fair c')

IsAuditStore-eq : (store : AuditStore) → IsAuditStore store → store ≡ reference_audit
IsAuditStore-eq s h =
    λ i. record { last = fun_ext h.last_lem i; create = fun_ext (λ a. fun_ext (h.create_lem a)) i }

module _ (digest : AuditBody → String) where
  apart :
      (a b : AuditLog)
      → ((c d : AuditBody) → digest c ≡ digest d → c.sequence ≡ d.sequence)
      → a.hash ≡ digest a.body
      → b.hash ≡ digest b.body
      → b.body.sequence < a.body.sequence
      → collides a b ≡ false
  apart a b inj ha hb less = elim (Bool-cases (str_eq b.hash a.hash)) [
    | inr other ↦ ground (arith, other, less)
    | inl same ↦
        let hashes : b.hash ≡ a.hash = (str_eq_iff b.hash a.hash).0 same in
        let sequences = inj b.body a.body (sym hb ∙ hashes ∙ ha) in
        absurd (omega (arith, less, sequences))
  ]

  free :
      (h : String) (s : ℕ) (a : AuditLog) (logs : List AuditLog)
      → ((c d : AuditBody) → digest c ≡ digest d → c.sequence ≡ d.sequence)
      → IsChain digest h s logs
      → a.body.sequence ≡ suc (s + length logs)
      → a.hash ≡ digest a.body
      → any (collides a) logs ≡ false
  free h s a [] inj c n d = refl
  free h s a (b ∷ logs) inj (n', p', d', c) n d =
      let first_apart = apart a b inj d d' (omega (arith, n, n')) in
      let ih = free b.hash (suc s) a logs inj c (omega (arith, n)) d in rw (first_apart, ih) refl

-- On a process of its own the first attempt stores the entry at the end of the trail, with the next
-- sequence and the digest of the last entry, if bodies of different sequences have different digests.
pub write-stores :
    (digest : AuditBody → String) (store : AuditStore) (action metadata : String)
    (req : AuditRequest) (logs : List AuditLog)
    → IsAuditStore store
    → ((b : AuditBody) → str_eq (digest b) "" ≡ false)
    → ((c d : AuditBody) → digest c ≡ digest d → c.sequence ≡ d.sequence)
    → IsChain digest "GENESIS" 0 logs
    → (a : AuditLog) × (write_tamper_proof_audit digest store action req metadata
          (λ n logs. [])
          logs
        ≡ (written a, inserted a logs))
      × (a.body.action ≡ action)
      × (a.body.sequence ≡ suc (length logs))
      × (a.body.previous_hash ≡ end_hash "GENESIS" logs)
unfolding write_tamper_proof_audit write_attempts append_audit_entry new_entry
write-stores digest store action metadata req logs is long inj c =
    let entry = new_entry digest action req metadata (latest logs) in
    let (n, p) = new_entry-IsNext digest action metadata req logs long c in
    let fits = free digest "GENESIS" 0 entry logs inj c (omega (arith, n)) refl in
    (entry, rw (IsAuditStore-eq store is, concat_nil digest logs, fits) refl, refl, n, p)

-- Writing an audit entry keeps the trail one chain from its genesis to its end and removes nothing
-- from it, whether the entry is stored or the attempts are used up, however other processes extend
-- the chain in between; a stored entry is the last one.
pub write-IsKept :
    (digest : AuditBody → String) (store : AuditStore) (action metadata : String)
    (req : AuditRequest) (others : ℕ → List AuditLog → List AuditLog) (logs : List AuditLog)
    → IsAuditStore store
    → ((b : AuditBody) → str_eq (digest b) "" ≡ false)
    → ((n : ℕ) (logs : List AuditLog)
        → IsChain digest "GENESIS" 0 logs
        → IsChain digest "GENESIS" 0 (logs ++ others n logs))
    → IsChain digest "GENESIS" 0 logs
    → IsKept digest logs (write_tamper_proof_audit digest store action req metadata others logs)
unfolding write_tamper_proof_audit
write-IsKept digest store action metadata req others logs is long fair c =
    subst
      (λ store.
        IsKept digest logs (write_tamper_proof_audit digest store action req metadata others logs))
      (sym (IsAuditStore-eq store is))
      (attempts-IsKept digest action metadata req others 4 logs long fair c)
