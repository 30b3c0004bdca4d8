-- ===== src/Access/Tests.antt =====
-- Witnesses for the gates.
use ecommerce_rest_api.Base.{◌≡◌, Option, true, false, none, some, [], ◌∷◌, refl, List}
use ecommerce_rest_api.Domain.{Role}
use ecommerce_rest_api.Errors.{ok, err, forbidden}
use ecommerce_rest_api.Mongo.Laws.{reference_collection, reference_collection-IsCollection}
use ecommerce_rest_api.Access.{
  AuthUser, UserSession, User, Claims, Identity, names, auth, step_up_auth,
}
use ecommerce_rest_api.Access.Gates.{IsIdentified, auth-IsIdentified}

abbrev one_session : List UserSession
one_session =
    (record {
      id = 3;
      user = 7;
      refresh_token = none;
      device_id = "phone";
      ip = "10.0.0.1";
      risk_score = 10;
      step_up_required = false;
      last_seen_at = 0;
      revoked_at = none;
    })
    ∷ []

abbrev customer : AuthUser
customer = record { id = 7; role = Role.user }

-- A session passes for its own user alone.
own_session :
    (step_up_auth reference_collection one_session (some 3) (some customer) ≡ ok tt)
    × (step_up_auth reference_collection one_session (some 3) (some (record customer { id = 8 }))
        ≡ err (forbidden "Step-up authentication required"))
unfolding step_up_auth
own_session = (refl, refl)

abbrev one_user : List User
one_user =
    (record {
      id = 7;
      name = "Ann";
      email = "ann@example.com";
      password = "hash";
      role = Role.user;
      tenant = "default";
      is_active = true;
      deleted_at = none;
    })
    ∷ []

abbrev session_token : Option Claims
session_token = some (record { id = 7; role = some Role.user; typ = some "access"; sid = names 3 })

abbrev customer_identity : Identity
customer_identity = record { user = customer; session_id = some 3; tenant = "default" }

auth-IsIdentified_example : IsIdentified one_user one_session session_token customer_identity
unfolding auth
auth-IsIdentified_example =
    auth-IsIdentified one_user one_session session_token customer_identity reference_collection
      reference_collection reference_collection-IsCollection reference_collection-IsCollection refl
