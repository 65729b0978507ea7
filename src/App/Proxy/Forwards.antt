-- ===== src/App/Proxy/Forwards.antt =====
-- What `handleBundler` of examples/privy-google-aa/server/api.mjs sends to the bundler.
use account_abstraction.Base.{
  ℕ, String, ◌≡◌, refl, ap, sym, subst, ◌∙◌, Option, none, some, ◌==◌, eq_iff, Result, ok, err,
  Bool-cases, inl, inr,
}
use account_abstraction.Js.Value.{Value}
use account_abstraction.Ethers.{Ethers, EthersLaws, Exn}
use account_abstraction.App.Codec.{Codec, Refusal, refused, thrown}
use account_abstraction.App.Policy.{Policy, Checked, check}
use account_abstraction.App.Policy.Permits.{IsPermitted, check-IsPermitted}
use account_abstraction.App.Cookie.{Crypto, CookieOptions, Session, parse}
use account_abstraction.App.Cookie.Authentic.{IsAuthentic, parse-IsAuthentic}
use account_abstraction.App.Guards.{Settings, Headers}
use account_abstraction.App.Proxy.{
  Network, Outcome, Body, unreadable, not_json, parsed_body, handle_bundler, with_cookie,
  after_check, after_fetch, Upstream,
}

abbrev returns : Outcome → Result Exn Outcome
returns o = ok o

outcome-inj : {a a' : Outcome} → returns a ≡ ok a' → a ≡ a'
outcome-inj h = cc

abbrev sends : Value × Value → Option (Value × Value)
sends p = some p

pair-inj : {a a' b b' : Value} → sends (a, b) ≡ sends (a', b') → (a ≡ a') × (b ≡ b')
pair-inj h = (cc, cc)

none_sent : {a b : Value} → none ≡ sends (a, b) → ⊥
none_sent h = cc

module _ (e : Ethers) (laws : EthersLaws e) (c : Codec) (policy : Policy) (k : Crypto)
    (options : CookieOptions) where
  -- A forwarded request comes with an authentic session, carries its token, and is permitted.
  abbrev pub IsGuarded : ℕ → Headers → Value → Value → Type 0
  IsGuarded now headers token request =
      (session : Session) × (checked : Checked) × IsAuthentic k options now headers.cookie session
      × (token ≡ session.access_token)
      × IsPermitted e laws c policy request checked

  module _ (settings : Settings) (network : Network) (headers : Headers) where
    after_fetch-forwarded :
        (current : Session) (checked : Checked) (request : Value) (answer : Result Exn Upstream)
        → (after_fetch settings network headers current checked request answer).forwarded
          ≡ some (current.access_token, request)
    after_fetch-forwarded current checked request (ok up) = refl
    after_fetch-forwarded current checked request (err x) = refl

    after_check-forwarded :
        (current : Session) (request : Value) (verdict : Result Refusal Checked) (outcome : Outcome)
        → (token sent : Value)
        → after_check settings network headers current request verdict ≡ ok outcome
        → outcome.forwarded ≡ some (token, sent)
        → (checked : Checked) × (verdict ≡ ok checked)
          × (token ≡ current.access_token)
          × (sent ≡ request)
    after_check-forwarded current request (err (thrown x)) outcome token sent h f = cc
    after_check-forwarded current request (err (refused m)) outcome token sent h f =
        absurd (none_sent (ap (λ o. o.forwarded) (outcome-inj h) ∙ f))
    after_check-forwarded current request (ok checked) outcome token sent h f =
        let answer = network.fetch_bundler current.access_token request in
        let (same_token, same_request) = pair-inj (
          sym (after_fetch-forwarded current checked request answer)
          ∙ ap (λ o. o.forwarded) (outcome-inj h)
          ∙ f) in
        (checked, refl, sym same_token, sym same_request)

    with_cookie-forwarded :
        (now : ℕ) (body : Body) (cookie : Option Session) (outcome : Outcome) (token sent : Value)
        → with_cookie settings network headers e c (ok policy) k options now body cookie
          ≡ ok outcome
        → outcome.forwarded ≡ some (token, sent)
        → (session : Session) × (checked : Checked) × (cookie ≡ some session)
          × (token ≡ session.access_token)
          × (check e c policy sent ≡ ok checked)
    with_cookie-forwarded now body none outcome token sent h f =
        absurd (none_sent (ap (λ o. o.forwarded) (outcome-inj h) ∙ f))
    with_cookie-forwarded now (unreadable status m) (some s) outcome token sent h f =
        absurd (none_sent (ap (λ o. o.forwarded) (outcome-inj h) ∙ f))
    with_cookie-forwarded now not_json (some s) outcome token sent h f =
        absurd (none_sent (ap (λ o. o.forwarded) (outcome-inj h) ∙ f))
    with_cookie-forwarded now (parsed_body request) (some s) outcome token sent h f =
        let (checked, verdict, same_token, same_request) =
          after_check-forwarded s request (check e c policy request) outcome token sent h f in
        (
          s,
          checked,
          refl,
          same_token,
          subst (λ r. check e c policy r ≡ ok checked) (sym same_request) verdict,
        )

    -- Whatever the proxy sends to the bundler, it sends for a POST whose cookie is authentic and
    -- has not expired, with the token of that cookie, and the request is one that the policy
    -- permits.
    pub handle_bundler-IsGuarded :
        (now : ℕ) (method : String) (body : Body) (outcome : Outcome) (token sent : Value)
        → handle_bundler settings network headers e c (ok policy) k options now method body
          ≡ ok outcome
        → outcome.forwarded ≡ some (token, sent)
        → (method ≡ "POST") × IsGuarded now headers token sent
    unfolding handle_bundler
    handle_bundler-IsGuarded now method body outcome token sent h f =
        elim (Bool-cases (method == "POST")) [
          | inr other ↦
              let got = rw other at h in
              absurd (none_sent (ap (λ o. o.forwarded) (outcome-inj got) ∙ f))
          | inl post ↦
              let (session, checked, cookie, same, verdict) =
                with_cookie-forwarded now body (parse k options now headers.cookie) outcome token
                  sent (rw post at h) f in
              (
                (eq_iff method "POST").0 post,
                (
                  session,
                  checked,
                  parse-IsAuthentic k options now headers.cookie session cookie,
                  same,
                  check-IsPermitted e laws c policy sent checked verdict,
                ),
              )
        ]
