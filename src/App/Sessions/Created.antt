-- ===== src/App/Sessions/Created.antt =====
-- Whom `handleSession` of examples/privy-google-aa/server/api.mjs gives a session.
use account_abstraction.Base.{ℕ, String, ◌≡◌, true, Option, [], Result, ok}
use account_abstraction.Js.Value.{Value, bool, opt_get}
use account_abstraction.Js.Num.{Num}
use account_abstraction.Ethers.{Exn}
use account_abstraction.App.Privy.{Failure, Identity}
use account_abstraction.App.Cookie.{Crypto}
use account_abstraction.App.Guards.{Headers, Response}
use account_abstraction.App.Configured.{ApiConfig, missing_config}
use account_abstraction.App.Sessions.{
  TokenAnswer, TokenCache, fetch_token, token_expiry_ms, new_session, created,
}

abbrev returns : Response × TokenCache → Result Exn (Response × TokenCache)
returns a = ok a

module _ (decode_json : String → Option Value) (k : Crypto) (config : ApiConfig) (headers : Headers)
    (verify : Option String → Result Failure Identity) (began now : ℕ) where
  -- A session for the verified user, with the token that is cached from then on, and its cookie.
  pub record IsCreated (cache : TokenCache) (answer : Result Exn TokenAnswer) (response : Response)
      (cache' : TokenCache) : Type 0 where
    pub identity : Identity
    pub expiry : Option Num
    pub configured : missing_config config ≡ []
    pub verified : verify headers.authorization ≡ ok identity
    pub token : fetch_token began cache answer ≡ ok cache'
    pub expires : token_expiry_ms decode_json cache'.access_token ≡ ok expiry
    pub response_is :
        response
        ≡ created decode_json k config headers
            (new_session decode_json k config headers now identity cache'.access_token expiry)

  abbrev pub IsAuthenticated : Response → Type 0
  IsAuthenticated response = opt_get response.payload "authenticated" ≡ bool true
