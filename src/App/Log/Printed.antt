-- ===== src/App/Log/Printed.antt =====
-- `toEntry` of examples/privy-google-aa/server/userop-log.mjs: how a row of the log is shown.
use account_abstraction.Base.{ℕ, zero, String, Bool, Option, none, some}
use account_abstraction.Js.Value.{pos, Value, null, bool, int, str, obj, end, field}
use account_abstraction.Js.Date.{iso_string}
use account_abstraction.App.Log.{Row}

abbrev text_or_null : Option String → Value
text_or_null none = null
text_or_null (some s) = str s

abbrev bool_or_null : Option Bool → Value
bool_or_null none = null
bool_or_null (some b) = bool b

abbrev time_or_null : Option ℕ → Value
time_or_null none = null
time_or_null (some zero) = null
time_or_null (some t) = str (iso_string t)

-- `toEntry`
unfoldable pub to_entry : Row → Value
to_entry row = obj (
    field "id" (int (pos row.id)) (
      field "at" (str (iso_string row.created_at)) (
        field "user" (text_or_null row.user_sub) (
          field "status" (str row.status) (
            field "method" (text_or_null row.method) (
              field "userOpHash" (text_or_null row.user_op_hash) (
                field "sender" (text_or_null row.sender) (
                  field "target" (text_or_null row.target) (
                    field "owner" (text_or_null row.owner) (
                      field "innerCall" (text_or_null row.inner_call) (
                        field "storedValue" (text_or_null row.stored_value) (
                          field "httpStatus" (int (pos row.http_status)) (
                            field "error" (text_or_null row.error) (
                              field "success" (bool_or_null row.success) (
                                field "revertReason" (text_or_null row.revert_reason) (
                                  field "txHash" (text_or_null row.tx_hash) (
                                    field "settledAt" (time_or_null row.settled_at)
                                      end)))))))))))))))))
