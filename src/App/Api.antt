-- ===== src/App/Api.antt =====
-- The routing of `handleApi` in examples/privy-google-aa/server/api.mjs.
pub mod Trusted
use account_abstraction.Base.{
  String, Bool, true, false, not, ◌&&◌, ◌||◌, List, [], ◌∷◌, ◌==◌, nat_beq, if◌then◌else◌,
}
use Prim.Native.Char.{code}
use Prim.Native.String
use account_abstraction.Js.Text.{split}
use account_abstraction.App.Guards.{
  Settings, Headers, UrlParser, host_allowed, cross_site, origin_allowed,
}

-- Where a request goes: to the host's `next` or a 404, to one of the two refusals, to the preflight
-- answer, to a handler, to the 410 of the path that was removed, or to a 404.
pub data Route : Type 0 where
  outside unexpected_host cross_origin preflight health session bundler : Route
  history removed_token not_found : Route

-- `path.startsWith(prefix)`
unfoldable pub starts_with : String → String → Bool
starts_with String.[] s = true
starts_with (String.◌∷◌ p ps) String.[] = false
starts_with (String.◌∷◌ p ps) (String.◌∷◌ c s) =
    let rest = starts_with ps s in nat_beq (code p) (code c) && rest

abbrev pub path_of : List String → String
path_of [] = ""
path_of (s ∷ ss) = s

-- The routes behind the guards.
unfoldable pub api_route : String → String → Route
api_route method path =
    if method == "OPTIONS"
    then preflight
    else if method == "GET" && path == "/api/health"
    then health
    else if path == "/api/session"
    then session
    else if path == "/api/bundler"
    then bundler
    else if path == "/api/history"
    then history
    else if path == "/api/token"
    then removed_token
    else not_found

module _ (url : UrlParser) (settings : Settings) (headers : Headers) where
  unfoldable pub route : String → String → Route
  route method req_url =
      let path = path_of (split b'?' req_url) in
      if not (starts_with "/api" path)
      then outside
      else if not (host_allowed settings headers)
      then unexpected_host
      else if cross_site headers || not (origin_allowed url settings headers)
      then cross_origin
      else api_route method path
