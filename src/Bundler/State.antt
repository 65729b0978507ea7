-- ===== src/Bundler/State.antt =====
-- The state of `LnetBundler` in bundler/src/index.js and the steps that its methods make between
-- two waits. The maps hold references to shared objects: `heap` is the store of the objects, and a
-- reference is an index into it.
use account_abstraction.Base.{
  ℕ, ◌+◌, String, Bool, true, false, ◌||◌, Option, none, some, List, [], ◌∷◌, ◌++◌, map, ◌==◌,
  Result, ok, err, length, get_elem?, modify, take, nat_beq, if◌then◌else◌,
}
use account_abstraction.Base.OrderedMap
use account_abstraction.Js.Value.{Value, null, bool, str, obj, end, field, or_else}
use account_abstraction.Ethers.{Ethers, Exn}
use account_abstraction.Bundler.Types.{
  Config, UserOp, LogItem, Receipt, OpEvent, pending, included, failed, Item,
}
use account_abstraction.Bundler.Errors.{decode_known_error}

-- `scheduled` counts the calls of `bundleNow` that `setImmediate` has been handed.
pub record Bundler : Type 0 where
  pub heap : List Item
  pub mempool : List (String × ℕ)
  pub history : List (String × ℕ)
  pub bundling : Bool
  pub scheduled : ℕ

abbrev pub start : Bundler
start = record { heap = []; mempool = []; history = []; bundling = false; scheduled = 0 }

abbrev pub item_at : Bundler → ℕ → Option Item
item_at s r = get_elem? s.heap r

-- The object that `history` holds under a hash.
unfoldable pub lookup : Bundler → String → Option Item
lookup s h = elim (OrderedMap.get h s.history) [ none ↦ none | some r ↦ item_at s r ]

abbrev pub is_known : Bundler → String → Bool
is_known s h = OrderedMap.has h s.history || OrderedMap.has h s.mempool

abbrev pub new_item : String → UserOp → String → ℕ → Item
new_item hash op entry_point now = record {
  user_op_hash = hash;
  op = op;
  entry_point = entry_point;
  status = pending;
  added_at = now;
  transaction_hash = null;
  receipt = none;
  error = none;
}

-- The end of `sendUserOperation`, after the wait for the simulation.
unfoldable pub accept : Item → Bundler → Bundler
accept item s =
    let r = length s.heap in
    record s {
      heap = s.heap ++ item ∷ [];
      mempool = OrderedMap.set item.user_op_hash r s.mempool;
      history = OrderedMap.set item.user_op_hash r s.history;
      scheduled = s.scheduled + 1;
    }

abbrev pub pending_count : Bundler → ℕ
pending_count s = length s.mempool

-- `bundleNow` up to its first wait: the bundle's objects, `none` where it returns at once.
unfoldable pub begin_bundle : Config → Bundler → Option (List ℕ) × Bundler
begin_bundle config s = if s.bundling || nat_beq (length s.mempool) 0 then (none, s) else (
  some (take config.max_bundle_size (OrderedMap.values s.mempool)),
  record s { bundling = true },
)

-- `items.map((item) => item.op)`; every reference in the program is to an object that is there
abbrev pub bundle_ops : Bundler → List ℕ → List UserOp
bundle_ops s [] = []
bundle_ops s (r ∷ rs) =
    let rest = bundle_ops s rs in elim (item_at s r) [ none ↦ rest | some item ↦ item.op ∷ rest ]

-- One round of the loops that end a bundle: the object is changed, its hash leaves `mempool`.
unfoldable pub settle_item : (Item → Item) → ℕ → Bundler → Bundler
settle_item f r s = elim (item_at s r) [
  | none ↦ s
  | some item ↦ record s {
    heap = modify r f s.heap;
    mempool = OrderedMap.delete item.user_op_hash s.mempool;
  }
]

unfoldable pub settle_items : (Item → Item) → List ℕ → Bundler → Bundler
settle_items f [] s = s
settle_items f (r ∷ rs) s = settle_items f rs (settle_item f r s)

unfoldable pub fail_item : String → Item → Item
fail_item reason item = record item { status = failed; error = some reason }

-- `interface.parseLog`, `none` where it throws or returns null
pub record ParsedLog : Type 0 where
  pub name : String
  pub user_op_hash : String
  pub event : OpEvent

abbrev pub LogParser : Type 0
LogParser = LogItem → Option ParsedLog

abbrev pub add_event : Option ParsedLog → List (String × OpEvent) → List (String × OpEvent)
add_event none events = events
add_event (some p) events =
    if p.name == "UserOperationEvent" then OrderedMap.set p.user_op_hash p.event events else events

-- The first loop of `markIncluded`.
unfoldable pub collect_events :
    LogParser → List LogItem → List (String × OpEvent) → List (String × OpEvent)
collect_events parse [] events = events
collect_events parse (l ∷ ls) events = collect_events parse ls (add_event (parse l) events)

abbrev pub tx_hash_of : Receipt → Value
tx_hash_of receipt = or_else receipt.hash receipt.transaction_hash

abbrev pub stored_log : Ethers → LogItem → Value
stored_log e l = obj (
    field "address" (str l.address) (
      field "topics" l.topics (
        field "data" (str l.data_) (
          field "blockHash" (str l.block_hash) (
            field "blockNumber" (str (e.to_quantity l.block_number)) (
              field "transactionHash" (str l.transaction_hash) (
                field "transactionIndex" (str (e.to_quantity l.transaction_index)) (
                  field "logIndex" (str (e.to_quantity l.index))
                    (field "removed" (bool l.removed) end)))))))))

unfoldable pub include_item : Ethers → Receipt → List (String × OpEvent) → Item → Item
include_item e receipt events item = record item {
  status = included;
  transaction_hash = tx_hash_of receipt;
  receipt = some (record {
    receipt = receipt;
    logs = map (stored_log e) receipt.logs;
    user_operation_event = OrderedMap.get item.user_op_hash events;
  });
}

-- `markIncluded`
unfoldable pub mark_included : Ethers → LogParser → List ℕ → Receipt → Bundler → Bundler
mark_included e parse items receipt s =
    settle_items (include_item e receipt (collect_events parse receipt.logs [])) items s

-- What the two waits of `bundleNow` bring: the transaction and its receipt, or an error.
pub record Bundled : Type 0 where
  pub tx_hash : String
  pub receipt : Receipt

-- `bundleNow` after its waits: the `try`'s rest or the `catch`, then the `finally`.
unfoldable pub finish_bundle :
    Ethers → LogParser → List ℕ → Result Exn Bundled → Bundler → Result Exn Value × Bundler
finish_bundle e parse items (ok b) s =
    (ok (str b.tx_hash), record (mark_included e parse items b.receipt s) { bundling = false })
finish_bundle e parse items (err x) s =
    (err x, record (settle_items (fail_item (decode_known_error x)) items s) { bundling = false })

-- `bundleNow` with nothing between its parts; `submit` sends the bundle and waits for its receipt.
unfoldable pub bundle_now :
    Ethers
    → LogParser
    → Config
    → (List UserOp → Result Exn Bundled)
    → Bundler
    → Result Exn Value × Bundler
bundle_now e parse config submit s =
    let (taken, s') = begin_bundle config s in
    elim taken [
      | none ↦ (ok null, s')
      | some items ↦ finish_bundle e parse items (submit (bundle_ops s' items)) s'
    ]
