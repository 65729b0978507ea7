-- ===== src/Ethers.antt =====
-- What the program takes from the ethers library, and the errors that both throw. The library is
-- not part of the repository: its functions are the fields of `Ethers`, and what the program relies
-- on is `EthersLaws`.
use account_abstraction.Base.{ℕ, String, Bool, true, ◌≡◌, some, Result, ok}
use account_abstraction.Js.Value.{ℤ, pos, Value, undefined, str}
use account_abstraction.Js.Number.{big_of_text}

-- A thrown `Error`, with the properties that the program reads: `info_error` is `err.info?.error`.
-- `undefined` stands for a property that is not there.
pub record Exn : Type 0 where
  pub code : Value
  pub message : String
  pub data_ : Value
  pub info_error : Value
  pub error : Value

-- `new Error(message)`
abbrev pub plain_error : String → Exn
plain_error m = record {
  code = undefined;
  message = m;
  data_ = undefined;
  info_error = undefined;
  error = undefined;
}

pub record Ethers : Type 0 where
  pub is_address : Value → Bool
  pub get_address : Value → Result Exn String
  pub is_hex_string : Value → Bool
  pub is_hex_string_32 : Value → Bool  -- `isHexString(v, 32)`
  pub to_quantity : ℕ → String
  pub negative_quantity : ℤ → Exn  -- what `toQuantity` throws on a negative number

pub record EthersLaws (e : Ethers) : Type 0 where
  pub get_address_ok : (v : Value) → e.is_address v ≡ true → (s : String) × (e.get_address v ≡ ok s)
  pub get_address_idem :
      (v : Value) (s : String)
      → e.get_address v ≡ ok s
      → (e.is_address (str s) ≡ true) × (e.get_address (str s) ≡ ok s)
  pub is_hex_string_text : (v : Value) → e.is_hex_string v ≡ true → (s : String) × (v ≡ str s)
  pub is_hex_string_empty : e.is_hex_string (str "0x") ≡ true
  pub is_hex_string_32_text : (v : Value) → e.is_hex_string_32 v ≡ true → (s : String) × (v ≡ str s)
  pub big-to_quantity : (n : ℕ) → big_of_text (e.to_quantity n) ≡ some (pos n)
