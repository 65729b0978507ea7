-- ===== src/Tests/Requests.antt =====
-- One run of each theorem on HTTP requests and tokens.
use account_abstraction.Base.{
  ◌≡◌, refl, ok, err, some, none, false, true, ◌↔◌, ◌⊎◌, String, [], ◌∷◌, any,
}
use account_abstraction.Js.Value.{
  Value, str, obj, arr, field, end, cons, nil, null, truthy, opt_get, is_nullish,
}
use account_abstraction.Ethers.{Exn, plain_error}
use account_abstraction.Bundler.State.{start}
use account_abstraction.Bundler.Auth.{verify_request, verify_token, bearer_token, audience_option}
use account_abstraction.Bundler.Server.{Request, serve, outgrows, crashed, requests_of}
use account_abstraction.Bundler.Access.{serve-unauthorized, verify_request-ok_iff, HasRole}
use account_abstraction.Bundler.Answers.{serve-crashed_iff}
use account_abstraction.Tests.Toys.{
  toy_ethers, toy_config, toy_auth, toy_parser, toy_chain, toy_params, toy_jwt, toy_claims,
}

abbrev send_request : Value
send_request = obj (
    field "jsonrpc" (str "2.0")
      (field "method" (str "eth_sendUserOperation") (field "params" toy_params end)))

abbrev unsigned : Request
unsigned = record {
  method = "POST";
  url = "/";
  authorization = none;
  chunks = 400 ∷ [];
  body = some send_request;
}

abbrev missing_token : Exn
missing_token = plain_error "missing bearer token: send 'Authorization: Bearer <access_token>'"

no_token : verify_request toy_jwt toy_config.auth none ≡ err missing_token
unfolding verify_request verify_token bearer_token
no_token = refl

serve-unauthorized_example :
    (serve toy_ethers toy_parser toy_config toy_jwt toy_chain unsigned start).1 ≡ start
serve-unauthorized_example =
    serve-unauthorized toy_ethers toy_parser toy_config toy_chain toy_jwt unsigned start
      missing_token refl no_token

verify_request-ok_iff_example :
    (verify_request toy_jwt toy_auth (some "bearer  good") ≡ ok toy_claims) ↔ (
      (toy_auth.enabled ≡ true)
      × ((token : String) × (bearer_token (some "bearer  good") ≡ some token)
          × (toy_jwt token toy_auth.issuer (audience_option toy_auth) ≡ ok toy_claims))
      × ((toy_auth.client_id ≡ "")
          ⊎ (truthy (opt_get toy_claims "azp") ≡ false)
          ⊎ (opt_get toy_claims "azp" ≡ str toy_auth.client_id))
      × ((toy_auth.required_role ≡ "") ⊎ HasRole toy_auth toy_claims))
verify_request-ok_iff_example =
    verify_request-ok_iff toy_jwt toy_auth (some "bearer  good") toy_claims

abbrev null_batch : Value
null_batch = arr (cons send_request (cons null nil))

abbrev null_request : Request
null_request = record unsigned { body = some null_batch }

small : outgrows 0 (400 ∷ []) ≡ false
unfolding outgrows
small = refl

serve-crashed_iff_example :
    ((serve toy_ethers toy_parser toy_config toy_jwt toy_chain null_request start).0 ≡ crashed)
    ↔ (any is_nullish (requests_of null_batch) ≡ true)
serve-crashed_iff_example =
    serve-crashed_iff toy_ethers toy_parser toy_config toy_jwt toy_chain null_request null_batch
      start refl small refl
