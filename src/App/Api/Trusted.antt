-- ===== src/App/Api/Trusted.antt =====
-- Which requests pass the guards of `handleApi` in examples/privy-google-aa/server/api.mjs.
use mathlib.Core.Bool.{false≢true}
use account_abstraction.Js.Text.{split}
use account_abstraction.Base.{
  String, ◌≡◌, ◌≢◌, ◌⊎◌, inl, inr, refl, ap, sym, Bool, true, false, Option, none, some, ◌==◌,
  eq_iff, Bool-cases, if◌then◌else◌, arith,
}
use account_abstraction.App.Guards.{
  Settings, Headers, UrlParser, host_allowed, cross_site, origin_allowed, request_host, hostname_of,
  is_loopback, is_listed, optional_origin_allowed, origin_text_allowed, origin_url_allowed, is_host,
}
use account_abstraction.App.Api.{
  Route, outside, unexpected_host, cross_origin, route, starts_with, path_of,
}

-- The routes behind the guards.
abbrev pub IsServed : Route → Type 0
IsServed outside = ⊥
IsServed unexpected_host = ⊥
IsServed cross_origin = ⊥
IsServed _ = Unit

one_of : (a b : Bool) → (if a then true else b) ≡ true → (a ≡ true) ⊎ (b ≡ true)
one_of true b h = inl refl
one_of false b h = inr h

module _ (url : UrlParser) (settings : Settings) (headers : Headers) where
  -- An origin that is empty, configured, the server's own, or on a local run one of this machine.
  abbrev pub IsTrustedOrigin : Option String → Type 0
  IsTrustedOrigin none = Unit
  IsTrustedOrigin (some origin) =
      (origin ≡ "")
      ⊎ (is_listed settings origin ≡ true)
      ⊎ ((hostname host : String) × (url origin ≡ some (hostname, host))
          × ((request_host settings headers ≡ some host)
              ⊎ ((settings.deployed ≡ false) × (is_loopback (some hostname) ≡ true))))

  abbrev pub IsTrusted : Type 0
  IsTrusted =
      ((settings.deployed ≡ true)
        ⊎ (is_loopback (hostname_of (request_host settings headers)) ≡ true))
      × (headers.fetch_site ≢ some "cross-site")
      × IsTrustedOrigin headers.origin

  is_host-eq : (h : Option String) (host : String) → is_host h host ≡ true → h ≡ some host
  is_host-eq none host p = cc
  is_host-eq (some h) host p = ap some ((eq_iff h host).0 p)

  origin_url-trusted :
      (parsed : Option (String × String))
      → origin_url_allowed settings headers parsed ≡ true
      → (hostname host : String) × (parsed ≡ some (hostname, host))
        × ((request_host settings headers ≡ some host)
            ⊎ ((settings.deployed ≡ false) × (is_loopback (some hostname) ≡ true)))
  origin_url-trusted none h = cc
  origin_url-trusted (some (hostname, host)) h =
      elim (Bool-cases (is_host (request_host settings headers) host)) [
        | inl own ↦ (hostname, host, refl, inl (is_host-eq _ host own))
        | inr other ↦ let local = rw other at h in (hostname, host, refl, inr (ground arith))
      ]

  origin_text-trusted :
      (origin : String)
      → origin_text_allowed url settings headers origin ≡ true
      → IsTrustedOrigin (some origin)
  origin_text-trusted origin h = elim (Bool-cases (origin == "")) [
    | inl empty ↦ inl ((eq_iff origin "").0 empty)
    | inr there ↦ elim (Bool-cases (is_listed settings origin)) [
      | inl listed ↦ inr (inl listed)
      | inr other ↦ inr (inr (origin_url-trusted (url origin) (rw (there, other) at h)))
    ]
  ]

  optional_origin-trusted :
      (o : Option String)
      → optional_origin_allowed url settings headers o ≡ true
      → IsTrustedOrigin o
  optional_origin-trusted none h = tt
  optional_origin-trusted (some origin) h = origin_text-trusted origin h

  host_allowed-trusted :
      host_allowed settings headers ≡ true
      → (settings.deployed ≡ true)
        ⊎ (is_loopback (hostname_of (request_host settings headers)) ≡ true)
  unfolding host_allowed
  host_allowed-trusted h = one_of settings.deployed _ h

  cross_site-not : cross_site headers ≡ false → headers.fetch_site ≢ some "cross-site"
  unfolding cross_site
  cross_site-not h p = let same = rw p at h in absurd (false≢true (sym same))

  -- A request that reaches a handler has, on a local run, a Host of this machine, is not marked as
  -- cross-site, and has no origin, an empty or configured one, the server's own, or on a local run
  -- one of this machine.
  pub route-IsTrusted :
      (method req_url : String) → IsServed (route url settings headers method req_url) → IsTrusted
  unfolding route
  route-IsTrusted method req_url served =
      let path = path_of (split b'?' req_url) in
      elim (Bool-cases (starts_with "/api" path)) [
        | inr other ↦ absurd (rw other at served)
        | inl api ↦ elim (Bool-cases (host_allowed settings headers)) [
          | inr strange ↦ absurd (rw (api, strange) at served)
          | inl host ↦ elim (Bool-cases (cross_site headers)) [
            | inl cross ↦ absurd (rw (api, host, cross) at served)
            | inr same_site ↦ elim (Bool-cases (origin_allowed url settings headers)) [
              | inr foreign ↦ absurd (rw (api, host, same_site, foreign) at served)
              | inl origin ↦ (
                host_allowed-trusted host,
                cross_site-not same_site,
                optional_origin-trusted headers.origin (unfold origin_allowed in origin),
              )
            ]
          ]
        ]
      ]
