-- ===== src/Platform/Signatures.antt =====
-- When a signed URL is accepted.
use ecommerce_rest_api.Base.{ℕ, String, ◌+◌, ◌/◌, ◌≡◌, not, ltb, refl, Bool-cases, inl, inr}
use ecommerce_rest_api.Domain.{Date}
use ecommerce_rest_api.Platform.{
  Runtime, IsRuntime, payload_of, create_signed_url, verify_signed_url,
}

-- A signature made for a path, a tenant and a subject is accepted, until its expiry and no longer,
-- with that expiry and every path, tenant and subject that join to the same text, its own among
-- them; the three may be divided at other dots.
pub verify-create :
    (node : Runtime) (secret path tenant subject path' tenant' subject' : String) (ttl : ℕ)
    (now at : Date)
    → IsRuntime node
    → (let url = create_signed_url node secret path tenant subject ttl now in
        payload_of path' tenant' subject' url.expires ≡ payload_of path tenant subject url.expires)
    → (let url = create_signed_url node secret path tenant subject ttl now in
        verify_signed_url node secret
          (record url { path = path'; tenant = tenant'; subject = subject' })
          at
        ≡ not (ltb (now / 1000 + ttl) (at / 1000)))
unfolding create_signed_url verify_signed_url
verify-create node secret path tenant subject path' tenant' subject' ttl now at is same =
    let number = is.number_lem (now / 1000 + ttl) in
    let written = is.show_lem (now / 1000 + ttl) in
    elim (Bool-cases (ltb (now / 1000 + ttl) (at / 1000))) [
      | inl past ↦ rw (written, number, past) refl
      | inr fresh ↦ rw (written, number, fresh, same) (is.same_lem _)
    ]
