-- ===== src/App/Sessions/Cached.antt =====
-- How long `fetchToken` of examples/privy-google-aa/server/api.mjs answers with its cache.
use account_abstraction.Base.{
  ℕ, suc, ◌+◌, ◌-◌, ◌*◌, ◌<◌, ◌≡◌, ◌↔◌, ◌⊎◌, true, ok, err, leb, arith, if◌then◌else◌,
}
use account_abstraction.Js.Value.{Value, pos, int, opt_get, truthy}
use account_abstraction.Js.Num.{whole, times, less, more, num_max, num_ltb}
use account_abstraction.Js.Num.Read.{to_number}
use account_abstraction.Ethers.{Exn}
use account_abstraction.App.Sessions.{
  TokenAnswer, TokenCache, empty_cache, is_fresh, cache_of, fetch_token,
}

-- `Math.max(ttlMs - 30_000, 5_000)`
abbrev lifetime : ℕ → ℕ
lifetime ttl = if leb ttl 35_000 then 5_000 else ttl - 30_000

num_max-less : (ttl : ℕ) → num_max 5_000 (less (whole ttl) 30_000) ≡ whole (lifetime ttl)
unfolding num_max less num_ltb
num_max-less ttl = ground arith

expires_at-whole :
    (now s : ℕ)
    → more now (num_max 5_000 (less (times (whole s) 1000) 30_000))
      ≡ whole (now + lifetime (s * 1000))
unfolding more times
expires_at-whole now s = ground (arith, num_max-less (s * 1000))

whole-ltb : (a b : ℕ) → (num_ltb (whole a) (whole b) ≡ true) ↔ (a < b)
unfolding num_ltb
whole-ltb a b = ground arith

is_fresh-cache_of :
    (now t s : ℕ) (body : Value)
    → truthy (opt_get body "access_token") ≡ true
    → opt_get body "expires_in" ≡ int (pos (suc s))
    → (is_fresh t (cache_of now body) ≡ true)
      ↔ ((t < now + 5_000) ⊎ (t + 30_000 < now + (s + 1) * 1000))
unfolding is_fresh cache_of to_number
is_fresh-cache_of now t s body there seconds = ground (
  arith,
  there,
  seconds,
  expires_at-whole now (suc s),
  whole-ltb t (now + lifetime (suc s * 1000)),
)

first_fetch :
    (now : ℕ) (answer : TokenAnswer) (cache : TokenCache)
    → fetch_token now empty_cache (ok answer) ≡ ok cache
    → (cache ≡ cache_of now answer.body) × (truthy (opt_get answer.body "access_token") ≡ true)
unfolding fetch_token is_fresh
first_fetch now answer cache h = ground arith

fetch_token-fresh :
    (t : ℕ) (cache : TokenCache) (x : Exn)
    → (fetch_token t cache (err x) ≡ ok cache) ↔ (is_fresh t cache ≡ true)
unfolding fetch_token
fetch_token-fresh t cache x = ground arith

-- A token that `fetchToken` got for a whole number of seconds is what it answers with, without
-- Keycloak, up to thirty seconds before its end, and for five seconds at least; from then on it asks
-- again, and fails where Keycloak cannot be reached.
pub fetch_token-reuses_iff :
    (now t s : ℕ) (answer : TokenAnswer) (cache : TokenCache) (x : Exn)
    → fetch_token now empty_cache (ok answer) ≡ ok cache
    → opt_get answer.body "expires_in" ≡ int (pos (suc s))
    → (fetch_token t cache (err x) ≡ ok cache)
      ↔ ((t < now + 5_000) ⊎ (t + 30_000 < now + (s + 1) * 1000))
fetch_token-reuses_iff now t s answer cache x got seconds =
    let (same, there) = first_fetch now answer cache got in
    rw same (
      iff_trans (fetch_token-fresh t (cache_of now answer.body) x)
        (is_fresh-cache_of now t s answer.body there seconds))
  where
    iff_trans : {A B C : Type 0} → A ↔ B → B ↔ C → A ↔ C
    iff_trans (f, g) (h, k) = (λ a. h (f a), λ c. g (k c))
