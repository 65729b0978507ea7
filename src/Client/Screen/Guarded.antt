-- ===== src/Client/Screen/Guarded.antt =====
-- When `sendUserOp` of examples/privy-google-aa/src/App.tsx asks the wallet to sign.
use account_abstraction.Base.{ℕ, suc, ◌≡◌, String, Bool, true, List, [], ◌∷◌, ok}
use account_abstraction.Js.Value.{str}
use account_abstraction.Ethers.{Ethers}
use account_abstraction.App.Codec.{Codec}
use account_abstraction.App.Log.{ReceiptCodec}
use account_abstraction.Client.Browser.{Call, sign_message, Browser, Page}
use account_abstraction.Client.Sending.{Encoder, Network, TargetInspection, inspect_target}
use account_abstraction.Client.Screen.{Screen, SetEncoder}

-- The requests to sign among calls.
abbrev pub signs : List Call → ℕ
signs [] = 0
signs (sign_message hash ∷ calls) = suc (signs calls)
signs (c ∷ calls) = signs calls

module _ (browser : Browser) (en : Encoder) (e : Ethers) (c : Codec) (rc : ReceiptCodec)
    (api_base : String) (net : Network) (rpc_url : String) (encode_set : SetEncoder)
    (has_wallet : Bool) where
  -- The target has code and answers as the storage contract does.
  abbrev pub IsChecked : Screen → Page → Type 0
  IsChecked s p =
      (has_wallet ≡ true)
      × (e.is_address (str s.storage_address) ≡ true)
      × ((inspection : TargetInspection) × ((inspect_target browser s.storage_address p).0
            ≡ ok inspection)
          × (inspection.has_code ≡ true)
          × (inspection.storage_readable ≡ true))
