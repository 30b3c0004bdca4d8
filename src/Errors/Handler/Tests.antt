-- ===== src/Errors/Handler/Tests.antt =====
-- A run and a witness of the error handler: a file that the static server does not find.
use ecommerce_rest_api.Base.{◌≡◌, true, false, none, some, [], ◌∷◌, refl}
use ecommerce_rest_api.Errors.Handler.{
  HttpLikeError, absent, number, failure, no_details, http_like, error_handler, to_app_error,
  should_expose_stack,
}

abbrev missing_file : HttpLikeError
missing_file = record {
  typ = none;
  status = number 404;
  status_code = number 404;
  expose = false;
  code = absent;
  key_value = [];
  message = "ENOENT: /srv/app/uploads/a.png";
  stack = some "at send.js:1";
}

abbrev other_file : HttpLikeError
other_file = record missing_file { message = "ENOENT: /srv/app/uploads/b.png"; stack = none }

-- Two answers: the path is not told, and a duplicate e-mail is named by its field alone.
answers :
    (error_handler true "production" (http_like missing_file) ≡ failure 404 "Not found" no_details)
    × (error_handler false "production" (
          http_like (record missing_file {
            code = number 11000;
            key_value = ("email", "ann@example.com") ∷ [];
          }))
        ≡ failure 409 "Duplicate value for email" no_details)
unfolding error_handler to_app_error should_expose_stack
answers = (refl, refl)
