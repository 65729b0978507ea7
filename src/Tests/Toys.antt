-- ===== src/Tests/Toys.antt =====
-- Concrete parameters: an ethers with quantities in decimal, a configuration, a chain, a token.
use account_abstraction.Base.{
  String, Bool, true, false, ◌&&◌, ◌≡◌, refl, some, [], ◌∷◌, Result, ok, err, is_some, nat_beq,
  arith, ◌==◌, if◌then◌else◌,
}
use account_abstraction.Js.Value.{pos, Value, undefined, null, str, arr, obj, nil, cons, end, field}
use account_abstraction.Js.Text.{text_length, strip_prefix_ignoring_case, decimal}
use account_abstraction.Js.Number.Decimal.{big_of_text-decimal}
use account_abstraction.Ethers.{Ethers, EthersLaws, Exn, plain_error}
use account_abstraction.Bundler.Types.{
  Config, AuthConfig, UserOp, LogItem, Receipt, OpEvent, zero_bytes32, zero_address,
}
use account_abstraction.Bundler.State.{LogParser, Bundled}
use account_abstraction.Bundler.Auth.{JwtVerify}
use account_abstraction.Bundler.Rpc.{Chain}
use account_abstraction.Bundler.World.{Send}

unfoldable pub starts_with_0x : String → Bool
unfolding strip_prefix_ignoring_case
starts_with_0x s = is_some (strip_prefix_ignoring_case "0x" s)

abbrev is_toy_address : Value → Bool
is_toy_address (str s) = nat_beq (text_length s) 42
is_toy_address _ = false

abbrev get_toy_address : Value → Result Exn String
get_toy_address (str s) =
    if nat_beq (text_length s) 42 then ok s else err (plain_error "invalid address")
get_toy_address _ = err (plain_error "invalid address")

abbrev is_toy_hex : Value → Bool
is_toy_hex (str s) = starts_with_0x s
is_toy_hex _ = false

abbrev is_toy_word : Value → Bool
is_toy_word (str s) = starts_with_0x s && nat_beq (text_length s) 66
is_toy_word _ = false

abbrev pub toy_ethers : Ethers
toy_ethers = record {
  is_address = is_toy_address;
  get_address = get_toy_address;
  is_hex_string = is_toy_hex;
  is_hex_string_32 = is_toy_word;
  to_quantity = decimal;
  negative_quantity = λ n. plain_error "unsigned value cannot be negative";
}

get_toy_address_ok :
    (v : Value) → is_toy_address v ≡ true → (s : String) × (get_toy_address v ≡ ok s)
get_toy_address_ok (str s) h = (s, ground arith)
get_toy_address_ok undefined h = cc
get_toy_address_ok _ h = cc

get_toy_address_idem :
    (v : Value) (s : String)
    → get_toy_address v ≡ ok s
    → (is_toy_address (str s) ≡ true) × (get_toy_address (str s) ≡ ok s)
get_toy_address_idem (str t) s h = ground arith
get_toy_address_idem _ s h = cc

is_toy_hex_text : (v : Value) → is_toy_hex v ≡ true → (s : String) × (v ≡ str s)
is_toy_hex_text (str s) h = (s, refl)
is_toy_hex_text _ h = cc

is_toy_word_text : (v : Value) → is_toy_word v ≡ true → (s : String) × (v ≡ str s)
is_toy_word_text (str s) h = (s, refl)
is_toy_word_text _ h = cc

pub toy_laws : EthersLaws toy_ethers
unfolding starts_with_0x
toy_laws = record {
  get_address_ok = get_toy_address_ok;
  get_address_idem = get_toy_address_idem;
  is_hex_string_text = is_toy_hex_text;
  is_hex_string_empty = refl;
  is_hex_string_32_text = is_toy_word_text;
  big-to_quantity = big_of_text-decimal;
}

abbrev pub sender : String
sender = "0x00000000000000000000000000000000000000a1"

abbrev pub entry_point : String
entry_point = "0x00000000000000000000000000000000000000e4"

abbrev pub hash : String
hash = "0x1111111111111111111111111111111111111111111111111111111111111111"

abbrev pub tx_hash : String
tx_hash = "0x2222222222222222222222222222222222222222222222222222222222222222"

abbrev pub toy_auth : AuthConfig
toy_auth = record {
  enabled = true;
  issuer = "https://sso.example/realms/lnet";
  jwks_uri = "https://sso.example/realms/lnet/protocol/openid-connect/certs";
  client_id = "bundler";
  audience = "";
  required_role = "submitter";
}

abbrev pub toy_config : Config
toy_config = record {
  rpc_url = "http://localhost:4545";
  chain_id = 648540;
  entry_point = entry_point;
  beneficiary = sender;
  simulation_mode = "try";
  max_bundle_size = 1;
  bundle_gas_limit = 10000000;
  enforce_zero_gas_fees = true;
  auth = toy_auth;
}

abbrev pub toy_op : UserOp
toy_op = record {
  sender = sender;
  nonce = pos 7;
  init_code = "0x";
  call_data = "0xabcd";
  account_gas_limits = zero_bytes32;
  pre_verification_gas = pos 0;
  gas_fees = zero_bytes32;
  paymaster_and_data = "0x";
  signature = "0x01";
}

abbrev pub toy_input : Value
toy_input = obj (
    field "sender" (str sender) (
      field "nonce" (str "7")
        (field "callData" (str "0xabcd") (field "signature" (str "0x01") end))))

abbrev pub toy_params : Value
toy_params = arr (cons toy_input (cons (str entry_point) nil))

abbrev pub toy_send : Send
toy_send = record { hash = hash; op = toy_op; entry_point = entry_point }

abbrev pub toy_log : LogItem
toy_log = record {
  address = entry_point;
  topics = arr nil;
  data_ = "0x";
  block_hash = tx_hash;
  block_number = 9;
  transaction_hash = tx_hash;
  transaction_index = 0;
  index = 0;
  removed = false;
}

abbrev pub toy_event : OpEvent
toy_event = record {
  paymaster = zero_address;
  success = false;
  actual_gas_cost = 0;
  actual_gas_used = 21000;
}

-- Every log is a UserOperationEvent for `hash`.
abbrev pub toy_parser : LogParser
toy_parser l = some (record { name = "UserOperationEvent"; user_op_hash = hash; event = toy_event })

abbrev pub toy_receipt : Receipt
toy_receipt = record {
  hash = str tx_hash;
  transaction_hash = undefined;
  index = some 0;
  block_hash = tx_hash;
  block_number = 9;
  from = str sender;
  to = str entry_point;
  cumulative_gas_used = 90000;
  gas_used = 90000;
  gas_price = 0;
  status = some 1;
  logs = toy_log ∷ [];
}

abbrev pub toy_bundled : Bundled
toy_bundled = record { tx_hash = tx_hash; receipt = toy_receipt }

abbrev pub toy_chain : Chain
toy_chain = record {
  get_user_op_hash = λ op. ok hash;
  simulate = λ op. ok (str zero_address);
  submit = λ ops. ok toy_bundled;
  send = λ method params. ok null;
  now = 1000;
  relayer = sender;
}

abbrev pub toy_claims : Value
toy_claims = obj (
    field "azp" (str "bundler")
      (field "realm_access" (obj (field "roles" (arr (cons (str "submitter") nil)) end)) end))

abbrev pub toy_jwt : JwtVerify
toy_jwt token issuer audience =
    if token == "good" then ok toy_claims else err (plain_error "signature verification failed")
