-- ===== src/Bundler/Receipts.antt =====
-- What `eth_getUserOperationReceipt` reports after a bundle.
use account_abstraction.Base.{
  String, ◌≡◌, refl, ap, ◌∙◌, Option, none, some, List, [], ◌∷◌, map, ◌==◌, ok, if◌then◌else◌,
  arith,
}
use account_abstraction.Base.OrderedMap
use account_abstraction.Base.OrderedMap.{get-set}
use account_abstraction.Js.Value.{arr, cons, nil, Value, str, bool, opt_get}
use account_abstraction.Ethers.{Ethers}
use account_abstraction.Bundler.Types.{OpEvent, LogItem, StoredReceipt}
use account_abstraction.Bundler.Query.{get_user_operation_receipt, event_success}
use account_abstraction.Bundler.State.{
  Bundler, LogParser, ParsedLog, Bundled, collect_events, tx_hash_of, stored_log, add_event,
}

-- The event that a log brings for a hash.
abbrev event_for : String → Option ParsedLog → Option OpEvent
event_for h none = none
event_for h (some p) =
    if p.name == "UserOperationEvent"
    then (if p.user_op_hash == h then some p.event else none)
    else none

abbrev or_earlier : Option OpEvent → Option OpEvent → Option OpEvent
or_earlier none earlier = earlier
or_earlier (some ev) earlier = some ev

-- The last UserOperationEvent of a receipt for a hash, found without the map.
pub last_event : LogParser → String → List LogItem → Option OpEvent
last_event parse h [] = none
last_event parse h (l ∷ ls) = or_earlier (last_event parse h ls) (event_for h (parse l))

or_earlier_assoc :
    (a b c : Option OpEvent) → or_earlier a (or_earlier b c) ≡ or_earlier (or_earlier a b) c
or_earlier_assoc none b c = refl
or_earlier_assoc (some ev) b c = refl

get-add_event :
    (h : String) (p : Option ParsedLog) (m : List (String × OpEvent))
    → OrderedMap.get h (add_event p m) ≡ or_earlier (event_for h p) (OrderedMap.get h m)
get-add_event h none m = refl
get-add_event h (some p) m = ground (arith, get-set p.user_op_hash h p.event m)

get-collect_events :
    (parse : LogParser) (h : String) (ls : List LogItem) (m : List (String × OpEvent))
    → OrderedMap.get h (collect_events parse ls m)
      ≡ or_earlier (last_event parse h ls) (OrderedMap.get h m)
unfolding collect_events last_event
get-collect_events parse h [] m = refl
get-collect_events parse h (l ∷ ls) m =
    get-collect_events parse h ls (add_event (parse l) m)
    ∙ ap (or_earlier (last_event parse h ls)) (get-add_event h (parse l) m)
    ∙ or_earlier_assoc (last_event parse h ls) (event_for h (parse l)) (OrderedMap.get h m)

or_earlier-none : (a : Option OpEvent) → or_earlier a none ≡ a
or_earlier-none none = refl
or_earlier-none (some ev) = refl

-- The map that `markIncluded` builds holds, under each hash, the last UserOperationEvent for it.
pub collect_events-last :
    (parse : LogParser) (h : String) (ls : List LogItem)
    → OrderedMap.get h (collect_events parse ls []) ≡ last_event parse h ls
unfolding OrderedMap.get
collect_events-last parse h ls =
    get-collect_events parse h ls [] ∙ or_earlier-none (last_event parse h ls)

-- What `markIncluded` keeps in the item of a hash.
abbrev stored_receipt : Ethers → LogParser → Bundled → String → StoredReceipt
stored_receipt e parse b hash = record {
  receipt = b.receipt;
  logs = map (stored_log e) b.receipt.logs;
  user_operation_event = OrderedMap.get hash (collect_events parse b.receipt.logs []);
}

-- `eth_getUserOperationReceipt` answers with a receipt: its `success` is that of the last
-- UserOperationEvent for the hash, or else whether the transaction's status is 1, and the inner
-- receipt names the bundle's transaction.
abbrev pub IsReported : Ethers → LogParser → Bundled → String → Bundler → Type 0
IsReported e parse b hash s =
    (reply : Value) × (get_user_operation_receipt e (arr (cons (str hash) nil)) s ≡ ok reply)
    × (opt_get reply "success"
        ≡ bool (event_success (last_event parse hash b.receipt.logs) b.receipt.status))
    × (opt_get (opt_get reply "receipt") "transactionHash" ≡ tx_hash_of b.receipt)
