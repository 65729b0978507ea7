-- ===== src/Bundler/Errors.antt =====
-- The errors of bundler/src/index.js: `rpcError`, `formatRpcError` and `decodeKnownError`.
use text.Mathlib.Text.{find?}
use account_abstraction.Base.{String, Bool, false, ◌&&◌, ◌||◌, ◌==◌, is_some, if◌then◌else◌}
use account_abstraction.Js.Value.{
  ℤ, negsuc, int_beq, Value, undefined, int, str, obj, end, field, opt_get, or_else, nullish_or,
  is_undefined, is_integer, truthy, text_of,
}
use account_abstraction.Js.Text.{to_lower}
use account_abstraction.Ethers.{Exn}

-- The JSON-RPC error codes: `negsuc 32601` is -32602.
abbrev pub invalid_params : ℤ
invalid_params = negsuc 32601

abbrev pub invalid_request : ℤ
invalid_request = negsuc 32599

abbrev pub method_not_found : ℤ
method_not_found = negsuc 32600

abbrev pub parse_error : ℤ
parse_error = negsuc 32699

abbrev pub unauthorized : ℤ
unauthorized = negsuc 32000

abbrev pub server_error : ℤ
server_error = negsuc 31999

abbrev pub not_authorized : ℤ
not_authorized = negsuc 32006

abbrev pub rpc_error_data : ℤ → String → Value → Exn
rpc_error_data code message d = record {
  code = int code;
  message = message;
  data_ = d;
  info_error = undefined;
  error = undefined;
}

abbrev pub rpc_error : ℤ → String → Exn
rpc_error code message = rpc_error_data code message undefined

unfoldable pub format_rpc_error : Exn → Value
format_rpc_error err =
    let code = if truthy err.code && is_integer err.code then err.code else int server_error in
    let message = if err.message == "" then "Error" else err.message in
    let rest = if is_undefined err.data_ then end else field "data" err.data_ end in
    obj (field "code" code (field "message" (str message) rest))

-- `/pattern/i.test(s)` for a pattern that is a plain lower-case text
unfoldable pub mentions : String → String → Bool
unfolding to_lower
mentions s pattern = is_some (find? (to_lower s) pattern)

abbrev is_int : Value → ℤ → Bool
is_int (int n) m = int_beq n m
is_int _ m = false

unfoldable pub decode_known_error : Exn → String
unfolding mentions
decode_known_error err =
    let code =
      nullish_or err.code (nullish_or (opt_get err.info_error "code") (opt_get err.error "code")) in
    let msg = or_else (str err.message) (
      or_else (opt_get err.info_error "message")
        (or_else (opt_get err.error "message") (str "Error"))) in
    if is_int code not_authorized || mentions (text_of msg) "not authorized"
    then "LNET rejected the direct handleOps tx: relayer lacks direct raw-tx writer permission"
    else text_of msg
