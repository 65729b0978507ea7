-- ===== src/Bundler/Lifecycle/Resubmit.antt =====
-- On a UserOperation that `history` of bundler/src/index.js already holds.
use account_abstraction.Base.{String, ◌≡◌, true}
use account_abstraction.Base.OrderedMap
use account_abstraction.Ethers.{Ethers}
use account_abstraction.Bundler.State.{Bundler}
use account_abstraction.Bundler.World.{World}

abbrev IsRemembered : String → Bundler → Type 0
IsRemembered k s = OrderedMap.has k s.history ≡ true
