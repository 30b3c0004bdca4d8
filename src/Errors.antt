-- ===== src/Errors.antt =====
-- src/shared/errors/AppError.ts and src/services/CustomeErrorHandler.ts: what a service throws, and
-- the result of a call that may throw.
pub mod Handler
use ecommerce_rest_api.Base.{ℕ, String, Bool, true, false, ◌≡◌, refl}

pub record AppError : Type 0 where
  pub status : ℕ
  pub message : String

unfoldable pub bad_request : String → AppError
bad_request message = record { status = 400; message = message }

unfoldable pub un_authorized : String → AppError
un_authorized message = record { status = 401; message = message }

unfoldable pub forbidden : String → AppError
forbidden message = record { status = 403; message = message }

unfoldable pub not_found : String → AppError
not_found message = record { status = 404; message = message }

unfoldable pub conflict : String → AppError
conflict message = record { status = 409; message = message }

unfoldable pub to_many_request : String → AppError
to_many_request message = record { status = 429; message = message }

unfoldable pub server_error : String → AppError
server_error message = record { status = 500; message = message }

unfoldable pub locked_error : String → AppError
locked_error message = record { status = 423; message = message }

pub data Result {ℓ} (A : Type ℓ) : Type ℓ where
  err : AppError → Result A
  ok : A → Result A

-- `if (!c) throw e`
abbrev pub require : Bool → AppError → Result (Unit {0})
require false failure = err failure
require true failure = ok tt

-- An exception ends a sequence of awaited calls.
module _ {ℓ κ} {A : Type ℓ} {B : Type κ} where
  infixl 5 ◌>>=◌
  abbrev pub ◌>>=◌ : Result A → (A → Result B) → Result B
  err failure >>= next = err failure
  ok value >>= next = next value

infixl 5 ◌>>◌
abbrev pub ◌>>◌ {ℓ} : {B : Type ℓ} → Result (Unit {0}) → Result B → Result B
first >> next = first >>= λ done. next

-- A chain that succeeded has succeeded at every step.
pub >>=-ok {ℓ κ} :
    {A : Type ℓ} {B : Type κ} (r : Result A) (f : A → Result B) (b : B)
    → (r >>= f) ≡ ok b
    → (a : A) × (r ≡ ok a) × (f a ≡ ok b)
>>=-ok (ok a) f b e = (a, refl, e)
>>=-ok (err x) f b e = cc

pub require-ok : (c : Bool) (x : AppError) (u : Unit {0}) → require c x ≡ ok u → c ≡ true
require-ok true x u e = refl
require-ok false x u e = cc
