-- ===== src/Bundler/Answers.antt =====
-- On the answers of `createServer` in bundler/src/index.js.
use account_abstraction.Base.{
  String, Bool, true, false, ◌≡◌, ◌↔◌, Option, none, some, List, [], ◌∷◌, any, arith,
}
use account_abstraction.Js.Value.{Value, is_nullish}
use account_abstraction.Ethers.{Ethers}
use account_abstraction.Bundler.Types.{Config}
use account_abstraction.Bundler.Auth.{JwtVerify}
use account_abstraction.Bundler.State.{Bundler, LogParser}
use account_abstraction.Bundler.Rpc.{Chain, AuthContext}
use account_abstraction.Bundler.Server.{
  Request, Response, crashed, answer, answers, auth_context, serve, serve_body, requests_of,
  outgrows,
}

module _ (e : Ethers) (parse : LogParser) (config : Config) (jwt : JwtVerify) (chain : Chain) where
  -- Whether the batch is answered depends on its elements alone.
  abbrev IsAnswered : Bool → Option (List Value) → Type 0
  IsAnswered true none = Unit
  IsAnswered true (some vs) = ⊥
  IsAnswered false none = ⊥
  IsAnswered false (some vs) = Unit

  answers-nullish :
      (auth : AuthContext) (requests : List Value) (s : Bundler)
      → IsAnswered (any is_nullish requests) (answers e parse config jwt chain auth requests s).0
  unfolding answers answer
  answers-nullish auth [] s = tt
  answers-nullish auth (r ∷ rs) s =
      ground (arith, answers-nullish auth rs (answer e parse config jwt chain auth r s).1)

  abbrev is_crash : Response → Bool
  is_crash crashed = true
  is_crash _ = false

  serve_body-crashed_iff :
      (header : Option String) (payload : Value) (s : Bundler)
      → ((serve_body e parse config jwt chain header (some payload) s).0 ≡ crashed)
        ↔ (any is_nullish (requests_of payload) ≡ true)
  unfolding serve_body
  serve_body-crashed_iff header payload s =
      let requests = requests_of payload in
      let auth = auth_context e parse config jwt chain header requests in
      ground (arith, answers-nullish auth requests s)

  -- A POST whose body is small enough and parses gets no answer exactly when the body, or an
  -- element of the batch, is null: reading `request.id` throws in the `catch`, and nothing catches
  -- that. The token, the methods and the bundler's state make no difference.
  pub serve-crashed_iff :
      (req : Request) (payload : Value) (s : Bundler)
      → req.method ≡ "POST"
      → outgrows 0 req.chunks ≡ false
      → req.body ≡ some payload
      → ((serve e parse config jwt chain req s).0 ≡ crashed)
        ↔ (any is_nullish (requests_of payload) ≡ true)
  unfolding serve
  serve-crashed_iff req payload s post small body =
      rw (post, small, body, serve) (serve_body-crashed_iff req.authorization payload s)
