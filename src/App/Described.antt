-- ===== src/App/Described.antt =====
-- `describeApi` of examples/privy-google-aa/server/api.mjs: the summary of the settings.
use account_abstraction.Base.{
  String, Bool, true, false, not, ◌&&◌, List, [], ◌∷◌, ◌++◌, ◌==◌, any, distinct, ◌>>=◌, ok, err,
  Result, if◌then◌else◌,
}
use account_abstraction.Js.Text.{to_text, template, join, to_lower}
use account_abstraction.Js.Num.{Num, infinite, json_number}
use account_abstraction.Ethers.{Ethers}
use account_abstraction.App.Codec.{Codec, Refusal}
use account_abstraction.App.Policy.{Policy}
use account_abstraction.App.Configured.{ApiConfig, missing_config, token_url, write_policy}
use account_abstraction.App.Policy.{allowed_method}
use account_abstraction.App.Privy.{jwks_url}
use account_abstraction.Base.OrderedMap

abbrev non_empty_or : String → String → String
non_empty_or text other = if text == "" then other else text

-- `${HISTORY_LIMIT}`, which is at least 1
abbrev printed : Num → String
printed (infinite negative) = "Infinity"
printed n = to_text (json_number n)

module _ (config : ApiConfig) where
  -- The warnings of `describeApi`.
  abbrev when : Bool → String → List String
  when test warning = if test then warning ∷ [] else []

  abbrev is_none_listed : List String → Bool
  is_none_listed [] = true
  is_none_listed (s ∷ ss) = false

  unfoldable pub warnings : List String
  warnings =
      when
        (not (is_none_listed config.allowed_origins)
          && not (to_lower config.cookie_same_site == "none"))
        (template (
          "TOKEN_ALLOWED_ORIGINS is set but SameSite=" ∷ config.cookie_same_site
          ∷ " — browsers will not send the session cookie cross-site (needs SESSION_COOKIE_SAMESITE=None + HTTPS)"
          ∷ []))
      ++ (if is_none_listed config.allowed_targets
          then "no ALLOWED_CALL_TARGETS and no VITE_STORAGE_ADDRESS — the policy accepts a UserOp calling ANY contract (the inner-call allowlist still applies). Set ALLOWED_CALL_TARGETS to lock this down."
            ∷ []
          else when (any (λ t. t == "*") config.allowed_targets)
              "ALLOWED_CALL_TARGETS=* — the policy will accept a UserOp calling any contract")
      ++ when (config.deployed && config.session_secret == "")
          "no SESSION_SECRET — each serverless instance signs cookies with its own key, so sessions do not survive a cold start"
      ++ when (not (is_none_listed (missing_config config))) (
          template (
            "missing env ("
            ∷ join ", " (missing_config config)
            ∷ ") — POST /api/session will return 500 until set"
            ∷ []))

  -- The line of the policy.
  abbrev policy_line : Policy → String
  policy_line policy = template (
      "policy methods="
      ∷ allowed_method
      ∷ " entryPoint="
      ∷ policy.entry_point
      ∷ " targets="
      ∷ (if policy.any_target
          then "*"
          else non_empty_or (join "," (distinct policy.targets)) "(none)")
      ∷ " innerCalls="
      ∷ (if policy.any_selector then "*" else join "," (OrderedMap.values policy.inner_selectors))
      ∷ [])

  abbrev policy_lines : Result Refusal Policy → Result Refusal (List String)
  policy_lines (ok policy) = ok (policy_line policy ∷ [])
  policy_lines (err x) = err x

  abbrev first_lines : List String
  first_lines =
      template
        ("mode=" ∷ (if config.deployed then "deployed (platform-routed, HTTPS)" else "local") ∷ [])
      ∷ template (
          "keycloak="
          ∷ token_url config
          ∷ " client="
          ∷ config.keycloak_client_id
          ∷ " user="
          ∷ non_empty_or config.naas_username "(unset)"
          ∷ [])
      ∷ template ("bundler=" ∷ config.bundler_url ∷ [])
      ∷ template (
          "privy app="
          ∷ non_empty_or config.privy_app_id "(unset)"
          ∷ " jwks="
          ∷ (if config.privy_app_id == ""
              then "(n/a)"
              else jwks_url config.privy_jwks_url config.privy_app_id)
          ∷ [])
      ∷ []

  abbrev last_lines : List String
  last_lines =
      template (
        "cookie="
        ∷ config.session_cookie_name
        ∷ " HttpOnly Path="
        ∷ config.session_cookie_path
        ∷ " SameSite="
        ∷ config.cookie_same_site
        ∷ (if config.cookie_secure then " Secure" else "")
        ∷ " (session cookie — not stored on disk)"
        ∷ [])
      ∷ template (
          "cors="
          ∷ (if is_none_listed config.allowed_origins
              then "(none — the frontend is same-origin)"
              else join "," (distinct config.allowed_origins))
          ∷ [])
      ∷ template (
          "write log="
          ∷ config.history_db_path
          ∷ " (GET /api/history returns the last "
          ∷ printed config.history_limit
          ∷ ")"
          ∷ [])
      ∷ []

  -- `describeApi`: its lines and its warnings; it throws what `writePolicy` throws.
  unfoldable pub describe_api : Ethers → Codec → Result Refusal (List String × List String)
  describe_api e c = do
    middle ← if config.entry_point == "" then ok [] else policy_lines (write_policy config e c)
    ok (first_lines ++ middle ++ last_lines, warnings)
