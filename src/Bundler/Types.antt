-- ===== src/Bundler/Types.antt =====
-- The records of bundler/src/index.js: the configuration, a UserOperation, a receipt, an item.
use account_abstraction.Base.{ℕ, String, Bool, Option, List}
use account_abstraction.Js.Value.{ℤ, Value}

-- `config.auth`
pub record AuthConfig : Type 0 where
  pub enabled : Bool
  pub issuer : String
  pub jwks_uri : String
  pub client_id : String
  pub audience : String
  pub required_role : String

-- The fields of `loadConfig`'s result that the bundler reads.
pub record Config : Type 0 where
  pub rpc_url : String
  pub chain_id : ℕ
  pub entry_point : String
  pub beneficiary : String
  pub simulation_mode : String
  pub max_bundle_size : ℕ
  pub bundle_gas_limit : ℕ
  pub enforce_zero_gas_fees : Bool
  pub auth : AuthConfig

abbrev pub zero_bytes32 : String
zero_bytes32 = "0x0000000000000000000000000000000000000000000000000000000000000000"

abbrev pub zero_address : String
zero_address = "0x0000000000000000000000000000000000000000"

-- A packed UserOperation, as `normalizeUserOp` returns it.
pub record UserOp : Type 0 where
  pub sender : String
  pub nonce : ℤ
  pub init_code : String
  pub call_data : String
  pub account_gas_limits : String
  pub pre_verification_gas : ℤ
  pub gas_fees : String
  pub paymaster_and_data : String
  pub signature : String

-- An entry of `receipt.logs`.
pub record LogItem : Type 0 where
  pub address : String
  pub topics : Value
  pub data_ : String
  pub block_hash : String
  pub block_number : ℕ
  pub transaction_hash : String
  pub transaction_index : ℕ
  pub index : ℕ
  pub removed : Bool

-- The receipt of the bundle's transaction.
pub record Receipt : Type 0 where
  pub hash : Value
  pub transaction_hash : Value
  pub index : Option ℕ
  pub block_hash : String
  pub block_number : ℕ
  pub from : Value
  pub to : Value
  pub cumulative_gas_used : ℕ
  pub gas_used : ℕ
  pub gas_price : ℕ
  pub status : Option ℕ
  pub logs : List LogItem

-- What `markIncluded` keeps of a UserOperationEvent.
pub record OpEvent : Type 0 where
  pub paymaster : String
  pub success : Bool
  pub actual_gas_cost : ℕ
  pub actual_gas_used : ℕ

-- `item.receipt`: the receipt with its logs rewritten, and `userOperationEvent`.
pub record StoredReceipt : Type 0 where
  pub receipt : Receipt
  pub logs : List Value
  pub user_operation_event : Option OpEvent

pub data Status : Type 0 where
  pending included failed : Status

-- An entry of `mempool` and `history`: one object that both maps share.
pub record Item : Type 0 where
  pub user_op_hash : String
  pub op : UserOp
  pub entry_point : String
  pub status : Status
  pub added_at : ℕ
  pub transaction_hash : Value
  pub receipt : Option StoredReceipt
  pub error : Option String
