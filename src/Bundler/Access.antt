-- ===== src/Bundler/Access.antt =====
-- On the authentication of requests: bundler/src/auth.js, and its use in bundler/src/index.js.
use account_abstraction.Base.{
  subst, sym, some_inj, ◌>>=◌, ◌>>◌, >>=-eq-ok, String, true, false, ◌≡◌, ◌↔◌, ◌⊎◌, inl, inr, refl,
  ◌∙◌, Option, none, some, List, [], ◌∷◌, eq_iff, Result, ok, err, any, Result-cases, arith,
}
use account_abstraction.Js.Value.{
  Value, str, arr, nil, opt_get, or_else, truthy, is_text, text_of, is_text_iff,
}
use account_abstraction.Ethers.{Ethers, Exn}
use account_abstraction.Bundler.Types.{Config, AuthConfig}
use account_abstraction.Bundler.Auth.{
  JwtVerify, verify_request, verify_token, bearer_token, token_roles, audience_option, check_azp,
  check_role, invalid_token,
}
use account_abstraction.Bundler.State.{Bundler, LogParser}
use account_abstraction.Bundler.Rpc.{
  Chain, AuthContext, is_protected, Case, send_operation, bundle, case_of, dispatch, handle_rpc,
}
use account_abstraction.Bundler.Server.{
  Request, answer, answers, auth_context, serve, serve_body, requests_of,
}

-- The cases that change the bundler are those of the protected methods.
abbrev IsOpen : Case → Type 0
IsOpen send_operation = ⊥
IsOpen bundle = ⊥
IsOpen _ = Unit

case_of-IsOpen : (method : String) → is_protected method ≡ false → IsOpen (case_of method)
unfolding case_of
case_of-IsOpen method h = ground arith

module _ (e : Ethers) (parse : LogParser) (config : Config) (chain : Chain) where
  -- A method that needs no token changes nothing.
  dispatch-open :
      (c : Case) (method : String) (params : Value) (s : Bundler)
      → IsOpen c
      → (dispatch e parse config chain c method params s).1 ≡ s
  unfolding dispatch
  dispatch-open send_operation method params s h = absurd h
  dispatch-open bundle method params s h = absurd h
  dispatch-open _ method params s h = refl

  -- With authentication on and no valid token, no request changes the bundler.
  handle_rpc-unauthorized :
      (payload : Value) (auth : AuthContext) (s : Bundler)
      → auth.enabled ≡ true
      → auth.passed ≡ false
      → (handle_rpc e parse config chain payload auth s).1 ≡ s
  unfolding handle_rpc
  handle_rpc-unauthorized payload auth s on failed = ground (
    arith,
    case_of-IsOpen (text_of (opt_get payload "method")),
    dispatch-open (case_of (text_of (opt_get payload "method")))
        (text_of (opt_get payload "method")) (or_else (opt_get payload "params") (arr nil)) s,
  )

  answer-unauthorized :
      (jwt : JwtVerify) (auth : AuthContext) (request : Value) (s : Bundler)
      → auth.enabled ≡ true
      → auth.passed ≡ false
      → (answer e parse config jwt chain auth request s).1 ≡ s
  unfolding answer
  answer-unauthorized jwt auth request s on failed =
      ground (arith, handle_rpc-unauthorized request auth s on failed)

  answers-unauthorized :
      (jwt : JwtVerify) (auth : AuthContext) (requests : List Value) (s : Bundler)
      → auth.enabled ≡ true
      → auth.passed ≡ false
      → (answers e parse config jwt chain auth requests s).1 ≡ s
  unfolding answers
  answers-unauthorized jwt auth [] s on failed = refl
  answers-unauthorized jwt auth (r ∷ rs) s on failed =
      answers-unauthorized jwt auth rs (answer e parse config jwt chain auth r s).1 on failed
      ∙ answer-unauthorized jwt auth r s on failed

  auth_context-unauthorized :
      (jwt : JwtVerify) (header : Option String) (requests : List Value) (x : Exn)
      → config.auth.enabled ≡ true
      → verify_request jwt config.auth header ≡ err x
      → let auth = auth_context e parse config jwt chain header requests in
        (auth.enabled ≡ true) × (auth.passed ≡ false)
  unfolding auth_context
  auth_context-unauthorized jwt header requests x on failed = ground arith

  serve_body-unauthorized :
      (jwt : JwtVerify) (header : Option String) (body : Option Value) (s : Bundler) (x : Exn)
      → config.auth.enabled ≡ true
      → verify_request jwt config.auth header ≡ err x
      → (serve_body e parse config jwt chain header body s).1 ≡ s
  unfolding serve_body
  serve_body-unauthorized jwt header none s x on failed = refl
  serve_body-unauthorized jwt header (some payload) s x on failed =
      let requests = requests_of payload in
      let auth = auth_context e parse config jwt chain header requests in
      let (on', failed') = auth_context-unauthorized jwt header requests x on failed in
      ground (arith, answers-unauthorized jwt auth requests s on' failed')

  -- With authentication on, an HTTP request whose token is not valid leaves the bundler as it was,
  -- whatever its method, its path and the requests in its body.
  pub serve-unauthorized :
      (jwt : JwtVerify) (req : Request) (s : Bundler) (x : Exn)
      → config.auth.enabled ≡ true
      → verify_request jwt config.auth req.authorization ≡ err x
      → (serve e parse config jwt chain req s).1 ≡ s
  unfolding serve
  serve-unauthorized jwt req s x on failed =
      ground (arith, serve_body-unauthorized jwt req.authorization req.body s x on failed)

-- A role that a token may claim in either place, and the conditions on the claims.
abbrev pub HasRole : AuthConfig → Value → Type 0
HasRole auth payload =
    (roles : List Value) × (token_roles auth payload ≡ ok roles)
    × (any (λ r. is_text r auth.required_role) roles ≡ true)

check_azp-ok_iff :
    (auth : AuthConfig) (payload : Value)
    → (check_azp auth payload ≡ ok tt) ↔ (
        (auth.client_id ≡ "")
        ⊎ (truthy (opt_get payload "azp") ≡ false)
        ⊎ (opt_get payload "azp" ≡ str auth.client_id))
check_azp-ok_iff auth payload =
    ground (arith, eq_iff auth.client_id "", is_text_iff (opt_get payload "azp") auth.client_id)

check_role-ok_iff :
    (auth : AuthConfig) (payload : Value)
    → (check_role auth payload ≡ ok tt) ↔ ((auth.required_role ≡ "") ⊎ HasRole auth payload)
check_role-ok_iff auth payload = elim (Result-cases (token_roles auth payload)) [
  | inl (roles, e) ↦ ground (arith, eq_iff auth.required_role "")
  | inr (x, e) ↦ ground (arith, eq_iff auth.required_role "")
]

both_pass :
    (m n : Result Exn (Unit {0})) (p : Value) → m ≡ ok tt → n ≡ ok tt → (m >> (n >> ok p)) ≡ ok p
both_pass m n p hm hn = rw (hm, hn)

after_jwt-ok_iff :
    (auth : AuthConfig) (answer : Result Exn Value) (payload : Value)
    → ((do claims ← invalid_token answer; check_azp auth claims; check_role auth claims; ok claims)
        ≡ ok payload)
      ↔ ((answer ≡ ok payload)
          × (check_azp auth payload ≡ ok tt)
          × (check_role auth payload ≡ ok tt))
after_jwt-ok_iff auth (err x) payload = (λ h. cc, λ h. cc (h.0))
after_jwt-ok_iff auth (ok claims) payload = (
  λ h.
      let (u, azp, rest) = >>=-eq-ok (check_azp auth claims) _ h in
      let (u', role, same) = >>=-eq-ok (check_role auth claims) _ rest in
      let q : claims ≡ payload = cc in
      (
        same,
        subst (λ p. check_azp auth p ≡ ok tt) q azp,
        subst (λ p. check_role auth p ≡ ok tt) q role,
      ),
  λ h.
      let q : claims ≡ payload = cc (h.0) in
      subst (λ p. (check_azp auth p >> (check_role auth p >> ok p)) ≡ ok payload) (sym q)
        (both_pass _ _ payload h.1 h.2),
)

verify_token-ok_iff :
    (jwt : JwtVerify) (auth : AuthConfig) (token : Option String) (payload : Value)
    → (verify_token jwt auth token ≡ ok payload) ↔ (
        ((t : String) × (token ≡ some t) × (jwt t auth.issuer (audience_option auth) ≡ ok payload))
        × (check_azp auth payload ≡ ok tt)
        × (check_role auth payload ≡ ok tt))
unfolding verify_token
verify_token-ok_iff jwt auth none payload = (λ h. cc, λ h. cc (h.0.1))
verify_token-ok_iff jwt auth (some t) payload =
    let both = after_jwt-ok_iff auth (jwt t auth.issuer (audience_option auth)) payload in
    (
      λ h. let (a, b, c) = both.0 h in ((t, refl, a), b, c),
      λ h. both.1 (
        subst (λ x. jwt x auth.issuer (audience_option auth) ≡ ok payload) (sym (some_inj h.0.1))
            h.0.2,
        h.1,
        h.2,
      ),
    )

-- `verifyRequest` accepts a request exactly when authentication is on, the header carries a bearer
-- token that `jose` accepts for the issuer and the audience (when one is configured), the token's
-- `azp` is absent or the configured client (when one is configured), and it claims the required role
-- (when one is required). What it returns is the token's payload.
pub verify_request-ok_iff :
    (jwt : JwtVerify) (auth : AuthConfig) (header : Option String) (payload : Value)
    → (verify_request jwt auth header ≡ ok payload) ↔ (
        (auth.enabled ≡ true)
        × ((token : String) × (bearer_token header ≡ some token)
            × (jwt token auth.issuer (audience_option auth) ≡ ok payload))
        × ((auth.client_id ≡ "")
            ⊎ (truthy (opt_get payload "azp") ≡ false)
            ⊎ (opt_get payload "azp" ≡ str auth.client_id))
        × ((auth.required_role ≡ "") ⊎ HasRole auth payload))
unfolding verify_request
verify_request-ok_iff jwt auth header payload = ground (
  arith,
  verify_token-ok_iff jwt auth (bearer_token header) payload,
  check_azp-ok_iff auth payload,
  check_role-ok_iff auth payload,
)
