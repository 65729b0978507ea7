-- ===== src/App/Log/Settles.antt =====
-- On the pending rows of the write log of examples/privy-google-aa/server/userop-log.mjs.
use account_abstraction.Base.{
  ℕ, ◌+◌, ◌<◌, ◌≡◌, refl, true, List, [], ◌∷◌, map, nat_beq, is_some, if◌then◌else◌, arith,
}
use account_abstraction.App.Proxy.{Entry}
use account_abstraction.App.Log.{
  Row, Table, Settlement, clip, pending_rows, settle_row, settle, record_entry,
}

-- The rows of another id.
abbrev pub without : ℕ → List Row → List Row
without id [] = []
without id (r ∷ rs) = let rest = without id rs in if nat_beq r.id id then rest else r ∷ rest

-- Settling a row with a transaction hash takes it, and no other, off the pending rows.
pub pending_rows-settle :
    (id : ℕ) (outcome : Settlement) (now : ℕ) (table : Table)
    → is_some (clip outcome.transaction_hash) ≡ true
    → pending_rows (settle id outcome now table).rows ≡ without id (pending_rows table.rows)
unfolding settle
pending_rows-settle id outcome now table h = pending_rows-map table.rows
  where
    pending_rows-map :
        (rows : List Row)
        → pending_rows (map (settle_row id outcome now) rows) ≡ without id (pending_rows rows)
    pending_rows-map [] = refl
    pending_rows-map (r ∷ rs) = ground (arith, h, pending_rows-map rs)

-- Ids fall from row to row, all below a bound.
abbrev pub Descends : ℕ → List Row → Type 0
Descends n [] = Unit
Descends n (r ∷ rs) = (r.id < n) × Descends r.id rs

-- The ids fall from the newest row on, and the counter has reached them all: no two rows share one.
abbrev pub IsOrdered : Table → Type 0
IsOrdered table = Descends (table.last_id + 1) table.rows

-- A change of the table.
pub data Change : Type 0 where
  recorded : ℕ → Entry → Change
  settled : ℕ → Settlement → ℕ → Change

abbrev pub apply : Change → Table → Table
apply (recorded now entry) table = (record_entry now entry table).1
apply (settled id outcome now) table = settle id outcome now table

abbrev pub apply_all : List Change → Table → Table
apply_all [] table = table
apply_all (x ∷ xs) table = apply_all xs (apply x table)
