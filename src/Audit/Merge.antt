-- ===== src/Audit/Merge.antt =====
-- internal/audit/merge.go: one page of two logs. Times are in seconds.
pub mod Order
mod Tests
use osspilot_ops_api.Common.{
  ℕ, eqb, ltb, ◌-◌, Bool, Option, none, some, List, [], ◌∷◌, length, take, drop, if◌then◌else◌,
}
use osspilot_ops_api.Common.Int.{ℤ, pos, negsuc, leb_int, ltb_int, add_int64, mul_int64}
use osspilot_ops_api.Schema.Audit.{AuditRow}

-- `Entry`: a row of the log with its id and its time
pub record Entry : Type 0 where
  pub id : ℕ
  pub created_at : ℕ
  pub row : AuditRow

-- `after`
unfoldable pub after : Entry → Entry → Bool
after a b = if eqb a.created_at b.created_at then ltb b.id a.id else ltb b.created_at a.created_at

-- The loop of `mergePage` while `ops[i]` is x, where `rest` goes on behind it.
unfoldable pub merge_into : Entry → (List Entry → List Entry) → List Entry → List Entry
merge_into x rest [] = x ∷ rest []
merge_into x rest (y ∷ ys) =
    let later = merge_into x rest ys in if after x y then x ∷ rest (y ∷ ys) else y ∷ later

-- The loop of `mergePage`
unfoldable pub merge : List Entry → List Entry → List Entry
unfolding merge_into
merge [] ys = ys
merge (x ∷ xs) ys = merge_into x (merge xs) ys

-- `merged[start:end]`, where `end` is `start + pageSize` or the length if that is less; `none` is the
-- panic on bounds below 0 or in the wrong order.
abbrev pub slice : List Entry → ℤ → ℤ → Option (List Entry)
slice merged (negsuc start) end = none
slice merged (pos start) (negsuc end) = none
slice merged (pos start) (pos end) =
    if ltb end start then none else some (take (end - start) (drop start merged))

abbrev with_total : ℤ → Option (List Entry) → Option (List Entry × ℤ)
with_total total none = none
with_total total (some rows) = some (rows, total)

-- `mergePage`, whose numbers are `int`s of 64 bits: `none` is a panic.
unfoldable pub merge_page : List Entry → List Entry → ℤ → ℤ → ℤ → ℤ → Option (List Entry × ℤ)
unfolding merge add_int64 mul_int64
merge_page ops tenant ops_total tenant_total page page_size =
    let merged = merge ops tenant in
    let total = add_int64 ops_total tenant_total in
    let start = mul_int64 (add_int64 page (negsuc 0)) page_size in
    let end = add_int64 start page_size in
    if leb_int (pos (length merged)) start
    then some ([], total)
    else with_total total (
        slice merged start (if ltb_int (pos (length merged)) end then pos (length merged) else end))
