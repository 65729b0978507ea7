-- ===== src/Tests/Proxies.antt =====
-- One run of each theorem on the session cookie, the guards and the proxy.
use account_abstraction.Base.{◌≡◌, refl, String, true, false, none, some, [], ok}
use account_abstraction.Js.Value.{Value, str, int, pos, obj, end, field}
use account_abstraction.Js.Text.{codes, trim, split, split_at_first, split_at_last}
use account_abstraction.App.Cookie.{
  Crypto, CookieOptions, Session, parse, read_cookie, read_parts, read_raw, read_signed,
  read_payload,
}
use account_abstraction.App.Cookie.Authentic.{IsAuthentic, parse-IsAuthentic}
use account_abstraction.App.Guards.{
  Settings, Headers, UrlParser, request_host, hostname_of, host_allowed, cross_site, origin_allowed,
}
use account_abstraction.App.Proxy.{
  Network, Outcome, Upstream, parsed_body, handle_bundler, after_fetch,
}
use account_abstraction.App.Proxy.Forwards.{IsGuarded, handle_bundler-IsGuarded}
use account_abstraction.App.Api.{route, starts_with, api_route}
use account_abstraction.App.Api.Trusted.{IsTrusted, route-IsTrusted}
use account_abstraction.Tests.Toys.{toy_ethers, toy_laws, hash}
use account_abstraction.Tests.Policies.{
  toy_codec, toy_policy, write_request, write_checked, permitted,
}

abbrev pub toy_payload : Value
toy_payload = obj (
    field "at" (str "token") (field "sub" (str "did:privy:1") (field "exp" (int (pos 100000)) end)))

abbrev pub toy_crypto : Crypto
toy_crypto = record {
  mac = λ payload. "c2ln";
  bytes = λ text. codes text;
  encode = λ payload. "cGF5";
  decode = λ text. some toy_payload;
  decode_uri = λ text. some text;
}

abbrev toy_options : CookieOptions
toy_options = record { name = "naas_session"; path = "/api"; same_site = "Strict"; secure = false }

abbrev pub toy_headers : Headers
toy_headers = record {
  host = some "localhost:5173";
  forwarded_host = none;
  origin = some "http://localhost:5173";
  fetch_site = some "same-origin";
  cookie = some "theme=dark; naas_session=cGF5.c2ln";
  authorization = none;
}

abbrev pub toy_session : Session
toy_session = record {
  access_token = str "token";
  sub = str "did:privy:1";
  expires_at = int (pos 100000);
}

pub parsed : parse toy_crypto toy_options 1000 toy_headers.cookie ≡ some toy_session
unfolding parse read_cookie read_parts read_raw read_signed read_payload split split_at_first
    split_at_last trim
parsed = refl

parse-IsAuthentic_example : IsAuthentic toy_crypto toy_options 1000 toy_headers.cookie toy_session
parse-IsAuthentic_example =
    parse-IsAuthentic toy_crypto toy_options 1000 toy_headers.cookie toy_session parsed

abbrev toy_settings : Settings
toy_settings = record { deployed = false; allowed_origins = [] }

abbrev toy_upstream : Upstream
toy_upstream = record {
  passed = true;
  status = 200;
  content_type = "application/json";
  text = "{}";
  parsed = obj (field "result" (str hash) end);
}

abbrev pub toy_network : Network
toy_network = record {
  url = "https://bundler.l-net.io";
  fetch_bundler = λ token request. ok toy_upstream;
  stringify = λ v. "{}";
}

abbrev post : String
post = "POST"

abbrev toy_outcome : Outcome
toy_outcome =
    after_fetch toy_settings toy_network toy_headers toy_session write_checked write_request
      (ok toy_upstream)

forwards :
    handle_bundler toy_settings toy_network toy_headers toy_ethers toy_codec
      (ok toy_policy)
      toy_crypto
      toy_options
      1000
      post
      (parsed_body write_request)
    ≡ ok toy_outcome
unfolding handle_bundler
forwards = rw (parsed, permitted) refl

handle_bundler-IsGuarded_example :
    (post ≡ post)
    × IsGuarded toy_ethers toy_laws toy_codec toy_policy toy_crypto toy_options 1000 toy_headers
        (str "token")
        write_request
handle_bundler-IsGuarded_example =
    handle_bundler-IsGuarded toy_ethers toy_laws toy_codec toy_policy toy_crypto toy_options
      toy_settings toy_network toy_headers 1000 post (parsed_body write_request) toy_outcome
      (str "token") write_request forwards refl

abbrev pub toy_url : UrlParser
toy_url origin = some ("localhost", "localhost:5173")

route-IsTrusted_example : IsTrusted toy_url toy_settings toy_headers
unfolding route api_route starts_with split request_host hostname_of host_allowed cross_site
    origin_allowed split_at_first
route-IsTrusted_example = route-IsTrusted toy_url toy_settings toy_headers "POST" "/api/bundler" tt
