-- ===== src/Tests/Services.antt =====
-- One run of each theorem on the sessions, the history and the requests of the application server.
use account_abstraction.Base.{
  ◌+◌, ◌*◌, ◌<◌, ◌≡◌, ◌↔◌, ◌⊎◌, refl, true, false, String, Option, none, some, [], ◌∷◌, Result, ok,
  err,
}
use account_abstraction.Js.Value.{Value, int, pos, str, obj, end, field}
use account_abstraction.Js.Num.{ratio, whole, times, less, more, num_max, num_ltb}
use account_abstraction.Js.Num.Read.{to_number}
use account_abstraction.Ethers.{plain_error}
use account_abstraction.App.Privy.{Failure, Identity}
use account_abstraction.App.Guards.{Response}
use account_abstraction.App.Configured.{ApiConfig}
use account_abstraction.App.Sessions.{
  TokenAnswer, TokenCache, empty_cache, is_fresh, cache_of, fetch_token, new_session, created,
}
use account_abstraction.App.Sessions.Cached.{fetch_token-reuses_iff}
use account_abstraction.Tests.Proxies.{toy_crypto, toy_headers}

abbrev pub config : ApiConfig
config = record {
  deployed = false;
  keycloak_url = "https://auth.l-net.io";
  keycloak_realm = "naas-realm";
  keycloak_client_id = "naas-client";
  keycloak_client_secret = "secret";
  naas_username = "user";
  naas_password = "password";
  bundler_url = "https://bundler.l-net.io";
  allowed_origins = [];
  session_cookie_name = "naas_session";
  session_cookie_path = "/api";
  cookie_same_site = "Strict";
  cookie_secure = false;
  session_secret = "";
  privy_app_id = "app";
  privy_jwks_url = "";
  entry_point = "0x1111111111111111111111111111111111111111";
  factory = "";
  allowed_targets = [];
  allowed_inner_calls = "set(uint256)" ∷ [];
  history_limit = whole 10;
  history_db_path = "/srv/userops.db";
}

abbrev pub keycloak : TokenAnswer
keycloak = record {
  passed = true;
  status = 200;
  body = obj (field "access_token" (str "h.p.s") (field "expires_in" (int (pos 300)) end));
}

abbrev cached : TokenCache
cached = record { access_token = str "h.p.s"; expires_at = whole 271_000; expires_in = whole 300 }

fetched : fetch_token 1_000 empty_cache (ok keycloak) ≡ ok cached
unfolding fetch_token is_fresh cache_of times less more num_max num_ltb to_number
fetched = refl

fetch_token-reuses_iff_example :
    (fetch_token 270_999 cached (err (plain_error "timeout")) ≡ ok cached)
    ↔ ((270_999 < 1_000 + 5_000) ⊎ (270_999 + 30_000 < 1_000 + (299 + 1) * 1000))
fetch_token-reuses_iff_example =
    fetch_token-reuses_iff 1_000 270_999 299 keycloak cached (plain_error "timeout") fetched refl

abbrev pub claims : String → Option Value
claims segment = some (obj (field "exp" (int (pos 300)) end))

abbrev user : Identity
user = record { sub = "did:privy:1"; sid = none; expires_at = int (pos 100_000) }

abbrev pub verify : Option String → Result Failure Identity
verify authorization = ok user

abbrev first_answer : Response
first_answer = created claims toy_crypto config toy_headers (
    new_session claims toy_crypto config toy_headers 1_000 user (str "h.p.s")
      (some (ratio (pos 300_000) 0)))

abbrev post : String
post = "POST"

abbrev get : String
get = "GET"
