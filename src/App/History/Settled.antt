-- ===== src/App/History/Settled.antt =====
-- That `settlePending` of examples/privy-google-aa/server/api.mjs, whose requests run side by side,
-- leaves the same log in whatever order they are answered.
use mathlib.Core.List.{Permᴰ}
use mathlib.Core.List.Permᴰ
use account_abstraction.Base.{◌≢◌, List}
use account_abstraction.Js.Num.{Num}
use account_abstraction.Js.Value.{Value}
use account_abstraction.Ethers.{Ethers}
use account_abstraction.App.Codec.{Codec}
use account_abstraction.App.Log.{Row}

-- Rows of different ids.
abbrev pub Differ : Row → Row → Type 0
Differ a b = a.id ≢ b.id
