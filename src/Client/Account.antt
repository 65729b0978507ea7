-- ===== src/Client/Account.antt =====
-- The login of examples/privy-google-aa/src/App.tsx, and the window that shows the stored value.
use account_abstraction.Base.{
  String, Bool, true, false, not, Option, none, some, ◌==◌, Result, ok, err, if◌then◌else◌,
}
use account_abstraction.Js.Value.{str, arr, nil}
use account_abstraction.Ethers.{Ethers}
use account_abstraction.App.Api.{starts_with}
use account_abstraction.Client.Browser.{ClientError, read_value, Browser, Page, reading}
use account_abstraction.Client.Session.{set_privy_token_provider, end_session}
use account_abstraction.Client.Screen.{Screen, idle, running, failed, set_status, refresh_write_log}

-- `text.includes(part)`
unfoldable pub includes_text : String → String → Bool
includes_text part String.[] = part == ""
includes_text part (String.◌∷◌ c s) =
    let later = includes_text part s in if starts_with part (String.◌∷◌ c s) then true else later

abbrev not_allowed : String
not_allowed = "Login with Google not allowed"

-- `loginWithGoogle`, on what Privy's `login` brings.
unfoldable pub login_with_google : Result String (Unit {0}) → Screen → Screen
login_with_google (ok done) s =
    set_status idle "Ready" (set_status running "Opening Google login..." s)
login_with_google (err message) s =
    set_status failed
      (if includes_text not_allowed message
        then "Privy rejected Google login. Enable Google in the Privy dashboard and allow http://127.0.0.1:5173 for this app."
        else message)
      (set_status running "Opening Google login..." s)

-- `onUnhandledRejection`
unfoldable pub on_unhandled_rejection : String → Screen → Screen
on_unhandled_rejection reason s =
    if includes_text not_allowed reason
    then set_status failed
        "Privy rejected Google login. Enable Google in the Privy dashboard and allow http://127.0.0.1:5173 for this app/client."
        s
    else s

-- `storageModal`
pub record StorageModal : Type 0 where
  pub open_ : Bool
  pub loading : Bool
  pub value : Option String
  pub error : Option String

-- `closeStorageModal`
abbrev pub close_storage_modal : StorageModal → StorageModal
close_storage_modal modal = record modal { open_ = false }

module _ (browser : Browser) (e : Ethers) where
  abbrev shown_value : Result ClientError String × Page → StorageModal × Page
  shown_value (ok value, p) =
      (record { open_ = true; loading = false; value = some value; error = none }, p)
  shown_value (err x, p) =
      (record { open_ = true; loading = false; value = none; error = some x.message }, p)

  -- `showStorageValue`
  unfoldable pub show_storage_value : String → Page → StorageModal × Page
  show_storage_value address p =
      if not (e.is_address (str address))
      then (
        record {
          open_ = true;
          loading = false;
          value = none;
          error = some "Storage address is not valid.";
        },
        p,
      )
      else shown_value (reading browser (read_value address) p)

module _ (browser : Browser) (api_base : String) where
  -- The effects that a change of `authenticated` runs: the provider, and the rows of the log.
  unfoldable pub on_authenticated : Bool → Screen → Page → Screen × Page
  on_authenticated authenticated s p =
      let p' = set_privy_token_provider authenticated p in
      if authenticated
      then refresh_write_log browser api_base s p'
      else (record s { write_log = arr nil; log_error = none }, p')

  -- `signOut`, with the effects of the logout that it asks Privy for.
  unfoldable pub sign_out : Screen → Page → Screen × Page
  sign_out s p = let (done, p') = end_session browser api_base p in on_authenticated false s p'
