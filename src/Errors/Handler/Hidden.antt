-- ===== src/Errors/Handler/Hidden.antt =====
-- What an answer tells of an error.
use ecommerce_rest_api.Base.{◌≤◌, false, ◌≡◌}
use ecommerce_rest_api.Errors.Handler.{AppFailure, HttpLikeError, keys_of, no_details}

-- Two errors that differ only in what is not for clients: the text, the stack, and the values of
-- duplicate keys.
pub record IsSameOutside (e e' : HttpLikeError) : Type 0 where
  pub hidden : e.expose ≡ false
  pub hidden' : e'.expose ≡ false
  pub typ : e.typ ≡ e'.typ
  pub status : e.status ≡ e'.status
  pub status_code : e.status_code ≡ e'.status_code
  pub code : e.code ≡ e'.code
  pub keys : keys_of e ≡ keys_of e'

-- A status for a client's error, or 500 with a text that is always the same; and no details.
pub record IsGeneric (f : AppFailure) : Type 0 where
  pub lowest : 400 ≤ f.status
  pub highest : f.status ≤ 500
  pub same_text : 500 ≤ f.status → f.message ≡ "Internal server error"
  pub plain : f.details ≡ no_details
