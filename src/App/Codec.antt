-- ===== src/App/Codec.antt =====
-- What the server takes from ethers besides `Ethers`: slices of hex texts, the decoding of calls,
-- and the hash of a signature. And the errors of the policy.
use account_abstraction.Base.{ℕ, String, Option, Result, ok, err}
use account_abstraction.Ethers.{Exn}

pub record Codec : Type 0 where
  pub data_slice : String → ℕ → ℕ → Result Exn String  -- `dataSlice(data, start, end)`
  pub data_tail : String → ℕ → Result Exn String  -- `dataSlice(data, start)`
  pub id : String → String  -- the hash of a text
  pub execute_selector : String
  pub create_account_selector : String
  pub decode_execute : String → Option (String × ℕ × String)  -- destination, value, inner call
  pub decode_create_account : String → Option String  -- the owner
  pub decode_uint : String → Option ℕ

-- What `check` throws: a `PolicyError`, or an error of ethers that nothing replaces.
pub data Refusal : Type 0 where
  refused : String → Refusal
  thrown : Exn → Refusal

abbrev pub rethrow {ℓ} : {A : Type ℓ} → Result Exn A → Result Refusal A
rethrow (ok a) = ok a
rethrow (err x) = err (thrown x)

-- `try { … } catch { throw new PolicyError(message) }`
abbrev pub refuse_with {ℓ} : {A : Type ℓ} → Result Exn A → String → Result Refusal A
refuse_with (ok a) message = ok a
refuse_with (err x) message = err (refused message)
