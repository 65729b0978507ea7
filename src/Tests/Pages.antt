-- ===== src/Tests/Pages.antt =====
-- One run of each theorem on the page.
use account_abstraction.Base.{◌≡◌, refl, true, false, none, some, [], ok}
use account_abstraction.Js.Value.{null, arr, nil}
use account_abstraction.Js.Num.{whole}
use account_abstraction.App.Log.{settle_row}
use account_abstraction.App.Log.Printed.{to_entry}
use account_abstraction.Client.Browser.{Browser, Page}
use account_abstraction.Client.Rpc.{bundler_send, wait_for_user_op_receipt}
use account_abstraction.Client.Retries.{RetriesOnce, bundler_send-RetriesOnce}
use account_abstraction.Client.Waiting.{Ends, wait_for_user_op_receipt-Ends}
use account_abstraction.Client.Screen.{Screen, SetEncoder, send_user_op}
use account_abstraction.Client.WriteLog.{describe_entry}
use account_abstraction.Client.WriteLog.Shown.{sent_label, describe_entry-settled}
use account_abstraction.Tests.Policies.{storage}
use account_abstraction.Tests.Logs.{toy_receipts, toy_settlement}
use account_abstraction.Tests.Posting.{toy_encoder, half_codec, word_ethers, network}
use account_abstraction.Tests.Histories.{sent_row}

-- A browser whose session has expired: every call is answered by a 401.
abbrev browser : Browser
browser = record {
  identity = λ calls. ok (some "token");
  fetch = λ calls. ok (record { passed = false; status = 401; body = none });
  text = λ calls. ok "0x";
  now = λ calls. 1_000;
  random = λ calls. 7;
}

abbrev page : Page
page = record { trace = []; expires_at = whole 2_000; has_provider = true }

bundler_send-RetriesOnce_example :
    RetriesOnce browser "/api" "eth_sendUserOperation" null page
      (bundler_send browser "/api" "eth_sendUserOperation" null page).1
bundler_send-RetriesOnce_example =
    bundler_send-RetriesOnce browser "/api" "eth_sendUserOperation" null page

wait_for_user_op_receipt-Ends_example :
    Ends browser "https://bundler.l-net.io" "0x01" 60 page
      (wait_for_user_op_receipt browser "https://bundler.l-net.io" "0x01" page)
wait_for_user_op_receipt-Ends_example =
    wait_for_user_op_receipt-Ends browser "https://bundler.l-net.io" "0x01" page

abbrev screen : Screen
screen = record {
  statuses = [];
  result = none;
  confirm_send = false;
  write_log = arr nil;
  log_error = none;
  storage_address = storage;
  value = "5";
}

abbrev encode_set : SetEncoder
encode_set n = ok "0x60fe47b105"

abbrev after_send : Page
after_send =
    (send_user_op browser toy_encoder word_ethers half_codec toy_receipts "/api" network
      "https://rpc.l-net.io" encode_set true screen page).1

describe_entry-settled_example :
    (describe_entry (to_entry (sent_row 1)) ≡ sent_label none)
    × (describe_entry (to_entry (settle_row (sent_row 1).id toy_settlement 9 (sent_row 1)))
        ≡ sent_label (some toy_settlement.success))
describe_entry-settled_example = describe_entry-settled (sent_row 1) toy_settlement 9 refl
