-- ===== src/Bundler/Auth.antt =====
-- bundler/src/auth.js: the bearer token of a request, and the checks on what it claims. `jose` is not
-- part of the repository: its `jwtVerify` is a parameter, of the token, the issuer and the audience.
use account_abstraction.Base.{
  String, not, ◌&&◌, ◌||◌, Option, none, some, List, [], ◌∷◌, ◌++◌, ◌==◌, Result, ok, err, ◌>>=◌,
  ◌>>◌, require, any, if◌then◌else◌,
}
use account_abstraction.Js.Value.{Value, str, opt_get, or_else, truthy, is_text}
use account_abstraction.Js.Text.{
  template, trim, strip_prefix_ignoring_case, starts_with_space, to_text,
}
use account_abstraction.Js.Iterate.{iterate_or_empty}
use account_abstraction.Ethers.{Exn, plain_error}
use account_abstraction.Bundler.Types.{AuthConfig}

-- `/^Bearer\s+(.+)$/i` on a trimmed header. Its last character is no space, so what follows the
-- spaces is the token.
abbrev match_bearer : Option String → Option String
match_bearer none = none
match_bearer (some rest) =
    if starts_with_space rest && not (trim rest == "") then some (trim rest) else none

-- `header` is `req.headers["authorization"]`.
unfoldable pub bearer_token : Option String → Option String
unfolding trim strip_prefix_ignoring_case
bearer_token none = none
bearer_token (some header) =
    if header == "" then none else match_bearer (strip_prefix_ignoring_case "bearer" (trim header))

abbrev pub JwtVerify : Type 0
JwtVerify = String → String → Option String → Result Exn Value

abbrev pub invalid_token : Result Exn Value → Result Exn Value
invalid_token (ok payload) = ok payload
invalid_token (err x) =
    err (plain_error (template ("invalid token: " ∷ to_text (or_else x.code (str x.message)) ∷ [])))

module _ (auth : AuthConfig) where
  unfoldable pub token_roles : Value → Result Exn (List Value)
  token_roles payload = do
    realm ←
        iterate_or_empty (opt_get (opt_get payload "realm_access") "roles") "roles is not iterable"
    client ←
        (if auth.client_id == ""
          then ok []
          else iterate_or_empty
              (opt_get (opt_get (opt_get payload "resource_access") auth.client_id) "roles")
              "roles is not iterable")
    ok (realm ++ client)

  -- `auth.audience || undefined`
  abbrev pub audience_option : Option String
  audience_option = if auth.audience == "" then none else some auth.audience

  abbrev pub check_azp : Value → Result Exn (Unit {0})
  check_azp payload =
      let azp = opt_get payload "azp" in
      require (auth.client_id == "" || not (truthy azp) || is_text azp auth.client_id) (
        plain_error (
          template (
            "token azp '"
            ∷ to_text azp
            ∷ "' is not the allowed client '"
            ∷ auth.client_id
            ∷ "'"
            ∷ [])))

  abbrev pub check_role : Value → Result Exn (Unit {0})
  check_role payload = if auth.required_role == "" then ok tt else do
    roles ← token_roles payload
    require (any (λ r. is_text r auth.required_role) roles)
        (plain_error (template ("token missing required role '" ∷ auth.required_role ∷ "'" ∷ [])))

module _ (jwt_verify : JwtVerify) (auth : AuthConfig) where
  -- `verifyRequest` of an authenticator that is enabled.
  unfoldable pub verify_token : Option String → Result Exn Value
  verify_token none =
      err (plain_error "missing bearer token: send 'Authorization: Bearer <access_token>'")
  verify_token (some token) = do
    payload ← invalid_token (jwt_verify token auth.issuer (audience_option auth))
    check_azp auth payload
    check_role auth payload
    ok payload

  -- `createAuthenticator(auth).verifyRequest`
  unfoldable pub verify_request : Option String → Result Exn Value
  verify_request header =
      if auth.enabled
      then verify_token (bearer_token header)
      else err (plain_error "authentication is disabled")
