-- ===== src/Audit/Tests.antt =====
-- A trail that two processes write to. The digest of these runs is a tally of the sequence.
use ecommerce_rest_api.Base.{
  ℕ, zero, suc, String, ◌≡◌, ◌∙◌, ap, sym, none, some, List, [], refl, arith, str_eq, str_eq_iff,
  false, Bool-cases, inl, inr, subst, length,
}
use Prim.Native.String as Text
use ecommerce_rest_api.Mongo.Reference.{inserted}
use ecommerce_rest_api.Audit.{AuditBody, AuditLog, AuditRequest, write_tamper_proof_audit, written}
use ecommerce_rest_api.Audit.Links.{
  IsChain, end_hash, reference_audit, reference_audit-IsAuditStore, concat_nil,
}
use ecommerce_rest_api.Audit.Chain.{IsKept, write-IsKept, write-stores}

tally_from : ℕ → String
tally_from zero = "."
tally_from (suc n) = Text.◌∷◌ "|" (tally_from n)

abbrev tally : AuditBody → String
unfolding tally_from
tally body = tally_from body.sequence

count-tally_from : (n : ℕ) → Text.count (tally_from n) ≡ suc n
unfolding tally_from
count-tally_from zero = refl
count-tally_from (suc n) = Text.count.cons "|" (tally_from n) ∙ ap suc (count-tally_from n)

tally-injective : (c d : AuditBody) → tally c ≡ tally d → c.sequence ≡ d.sequence
unfolding tally
tally-injective c d e =
    let counts =
      sym (count-tally_from c.sequence) ∙ ap Text.count e ∙ count-tally_from d.sequence in
    omega (arith, counts)

tally-long : (b : AuditBody) → str_eq (tally b) "" ≡ false
unfolding tally
tally-long b = elim (Bool-cases (str_eq (tally_from b.sequence) "")) [
  | inr long ↦ long
  | inl empty ↦
      let same = ap Text.count ((str_eq_iff (tally_from b.sequence) "").0 empty) in
      let counted = count-tally_from b.sequence in absurd (omega (arith, same, counted))
]

abbrev request : AuditRequest
request = record {
  actor = some 7;
  tenant = none;
  user_tenant = some "default";
  request_id = none;
  ip = none;
}

abbrev nobody : ℕ → List AuditLog → List AuditLog
nobody n logs = []

write-IsKept_example :
    IsKept tally []
      (write_tamper_proof_audit tally reference_audit "order.cancelled" request "{}" nobody [])
write-IsKept_example =
    write-IsKept tally reference_audit "order.cancelled" "{}" request nobody []
      reference_audit-IsAuditStore tally-long
      (λ n logs c. subst (IsChain tally "GENESIS" 0) (sym (concat_nil tally logs)) c) tt

write-stores_example :
    (a : AuditLog) × (write_tamper_proof_audit tally reference_audit "order.cancelled" request "{}"
        nobody []
      ≡ (written a, inserted a []))
    × (a.body.action ≡ "order.cancelled")
    × (a.body.sequence ≡ suc (length {A = AuditLog} []))
    × (a.body.previous_hash ≡ end_hash "GENESIS" [])
write-stores_example =
    write-stores tally reference_audit "order.cancelled" "{}" request []
      reference_audit-IsAuditStore tally-long tally-injective tt
