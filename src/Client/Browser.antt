-- ===== src/Client/Browser.antt =====
-- What the code of examples/privy-google-aa/src does to the world: its calls, one after another, and
-- what the browser answers to them. A call may be answered in any way that depends on the calls
-- before it, and so may the clock.
use account_abstraction.Base.{ℕ, String, Bool, Option, List, ◌∷◌, Result, ok, err}
use account_abstraction.Js.Value.{Value, undefined}
use account_abstraction.Js.Num.{Num}

-- A thrown error, with the `code` that the page gives it.
pub record ClientError : Type 0 where
  pub code : Value
  pub message : String

abbrev pub error_of : String → ClientError
error_of message = record { code = undefined; message = message }

-- A call of `fetch`, of Privy, of the timer, of the chain, or of the wallet. A post is authenticated if it carries the cookie.
pub data Call : Type 0 where
  ask_identity : Call
  post_session : String → Call
  delete_session : Call
  post_rpc : Bool → String → Value → Call
  get_history : ℕ → Call
  sleep : ℕ → Call
  read_code read_value : String → Call
  switch_chain open_wallet ask_owner : Call
  read_account : String → ℕ → Call
  read_hash : Value → Call
  sign_message : String → Call

-- An answer; `body` is what `JSON.parse` makes of its text, `none` where it throws.
pub record HttpAnswer : Type 0 where
  pub passed : Bool
  pub status : ℕ
  pub body : Option Value

-- The answers, the clock and twenty random bytes as a number, by the calls so far, the newest first.
-- `text` answers the calls of the chain and of the wallet.
pub record Browser : Type 0 where
  pub identity : List Call → Result ClientError (Option String)
  pub fetch : List Call → Result ClientError HttpAnswer
  pub text : List Call → Result ClientError String
  pub now : List Call → ℕ
  pub random : List Call → ℕ

-- The variables of the page, and its calls so far.
pub record Page : Type 0 where
  pub trace : List Call
  pub expires_at : Num
  pub has_provider : Bool

-- A computation that awaits calls, and returns or throws.
abbrev pub Io {ℓ} : Type ℓ → Type ℓ
Io A = Page → Result ClientError A × Page

abbrev pub continue_with {ℓ κ} :
    {A : Type ℓ} {B : Type κ}
    → (A → Io B)
    → Result ClientError A × Page
    → Result ClientError B × Page
continue_with next (ok a, p) = next a p
continue_with next (err x, p) = (err x, p)

infixl 5 ◌>>=◌ ◌>>◌
abbrev pub ◌>>=◌ {ℓ κ} : {A : Type ℓ} {B : Type κ} → Io A → (A → Io B) → Io B
first >>= next = λ p. continue_with next (first p)

abbrev pub ◌>>◌ {κ} : {B : Type κ} → Io (Unit {0}) → Io B → Io B
first >> next = first >>= λ done. next

abbrev pub returning {ℓ} : {A : Type ℓ} → Result ClientError A → Io A
returning r = λ p. (r, p)

abbrev pub recover {ℓ} :
    {A : Type ℓ} → (ClientError → Io A) → Result ClientError A × Page → Result ClientError A × Page
recover handler (ok a, p) = (ok a, p)
recover handler (err x, p) = handler x p

-- `try { … } catch (err) { … }`
abbrev pub attempt {ℓ} : {A : Type ℓ} → Io A → (ClientError → Io A) → Io A
attempt body handler = λ p. recover handler (body p)

module _ (browser : Browser) where
  -- `fetch`
  abbrev pub fetching : Call → Io HttpAnswer
  fetching call = λ p. (browser.fetch (call ∷ p.trace), record p { trace = call ∷ p.trace })

  abbrev pub pausing : ℕ → Io (Unit {0})
  pausing ms = λ p. (ok tt, record p { trace = sleep ms ∷ p.trace })

  -- A call of the chain or of the wallet.
  abbrev pub reading : Call → Io String
  reading call = λ p. (browser.text (call ∷ p.trace), record p { trace = call ∷ p.trace })
