-- ===== src/Regions/Rows.antt =====
-- internal/regions/store.go
use Prim.Native.String.{count}
use osspilot_ops_api.Common.{
  ℕ, eqb, leb, ltb, ◌+◌, Bool, true, false, not, ◌&&◌, ◌||◌, Option, none, some, List, [], ◌∷◌,
  ◌++◌, map, any, keep, first, length, ◌==◌, if◌then◌else◌,
}
use osspilot_ops_api.Action.{Result, ok, err, Action, ◌>>=◌, ◌>>◌, pure, stop}
use osspilot_ops_api.Database.{DbError, no_rows, unique_violation, broken, exec, query, transaction}
use osspilot_ops_api.Schema.{Tables, Store}
use osspilot_ops_api.Schema.Tenants.{AccountRow, BucketRow}
use osspilot_ops_api.Schema.Regions.{RegionRow}

-- `Region`, whose row is the other fields
pub record Region : Type 0 where
  pub row : RegionRow
  pub open row use *
  pub tenant_count : ℕ

-- The errors of `Delete`: `failed` is any other.
pub data DeleteError : Type 0 where
  no_region default_region bound_region failed : DeleteError

abbrev pub by_region : ℕ → RegionRow → Bool
by_region id r = eqb r.id id

abbrev pub refers_to : ℕ → Option ℕ → Bool
refers_to id none = false
refers_to id (some n) = eqb n id

-- SELECT COUNT(*) FROM tenant_accounts WHERE storage_region_id = $1
abbrev pub bound_accounts : ℕ → Tables → ℕ
bound_accounts id t =
    length (keep (λ (a : AccountRow). refers_to id a.storage_region_id) t.tenants.accounts)

-- `scan`, which leaves the count at 0
abbrev pub scanned : RegionRow → Region
scanned r = record { row = r; tenant_count = 0 }

-- `List`
unfoldable pub list_regions : Action Store DbError (List Region)
unfolding query
list_regions = query (λ t. ok (
    map (λ (r : RegionRow). record { row = r; tenant_count = bound_accounts r.id t })
      t.regions.rows))

abbrev pub found_region : Option RegionRow → Option Region
found_region none = none
found_region (some r) = some (scanned r)

-- `GetByID`
unfoldable pub get_region : ℕ → Action Store DbError (Option Region)
unfolding query
get_region id = query (λ t. ok (found_region (first (by_region id) t.regions.rows)))

abbrev pub with_rows : (List RegionRow → List RegionRow) → Tables → Tables
with_rows f t = record t { regions = record t.regions { rows = f t.regions.rows } }

-- SET is_default = false
abbrev pub undefault : RegionRow → RegionRow
undefault r = record r { is_default = false }

-- UPDATE storage_regions SET is_default = false WHERE is_default
abbrev pub clear_defaults : List RegionRow → List RegionRow
clear_defaults = map (λ r. if r.is_default then undefault r else r)

-- … AND id <> $1
abbrev pub clear_other_defaults : ℕ → List RegionRow → List RegionRow
clear_other_defaults id = map (λ r. if r.is_default && not (eqb r.id id) then undefault r else r)

-- The lengths of the VARCHAR columns, in characters.
unfoldable pub region_fits : RegionRow → Bool
region_fits r =
    leb (count r.code) 64
    && leb (count r.name) 128
    && leb (count r.s3_endpoint) 512
    && leb (count r.s3_region_name) 64
    && leb (count r.status) 32

abbrev pub append_region : RegionRow → Tables → Tables
append_region r t = record t {
  regions = record t.regions {
    rows = t.regions.rows ++ r ∷ [];
    next_region_id = t.regions.next_region_id + 1;
  };
}

-- INSERT INTO storage_regions: the unique index on `code`, and that on `is_default` where it holds
unfoldable pub insert_region_row : (ℕ → RegionRow) → Tables → Result DbError RegionRow × Tables
unfolding region_fits
insert_region_row row t =
    let r = row t.regions.next_region_id in
    if not (region_fits r)
    then (err broken, t)
    else if any (λ x. x.code == r.code) t.regions.rows
        || r.is_default && any (λ x. x.is_default) t.regions.rows
    then (err unique_violation, t)
    else (ok r, append_region r t)

unfoldable clear_for : Bool → (List RegionRow → List RegionRow) → Action Store DbError Unit
unfolding exec
clear_for false f = pure tt
clear_for true f = exec (λ t. (ok tt, with_rows f t))

-- The transaction of `Insert`
unfoldable pub insert_body : Bool → (ℕ → RegionRow) → Action Store DbError Region
unfolding exec insert_region_row clear_for
insert_body is_default row = do
  clear_for is_default clear_defaults
  r ← exec (insert_region_row row)
  pure (scanned r)

-- `Insert`
unfoldable pub insert_region : Bool → (ℕ → RegionRow) → Action Store DbError Region
unfolding transaction insert_body
insert_region is_default row = transaction (insert_body is_default row)

-- UPDATE storage_regions SET name = $2, … WHERE id = $1
abbrev pub set_region : RegionRow → RegionRow → RegionRow
set_region new old = record old {
  name = new.name;
  s3_endpoint = new.s3_endpoint;
  s3_region_name = new.s3_region_name;
  is_default = new.is_default;
  status = new.status;
  updated_at = new.updated_at;
}

abbrev pub set_where : RegionRow → List RegionRow → List RegionRow
set_where new = map (λ r. if by_region new.id r then set_region new r else r)

unfoldable pub update_region_row : RegionRow → Tables → Result DbError RegionRow × Tables
unfolding region_fits
update_region_row new t = elim (first (by_region new.id) t.regions.rows) [
  | none ↦ (err no_rows, t)
  | some old ↦
      if not (region_fits (set_region new old))
      then (err broken, t)
      else if new.is_default && any (λ x. x.is_default && not (by_region new.id x)) t.regions.rows
      then (err unique_violation, t)
      else (ok (set_region new old), with_rows (set_where new) t)
]

-- `setDefault != nil && *setDefault`
abbrev pub asked : Option Bool → Bool
asked none = false
asked (some b) = b

-- `if err == pgx.ErrNoRows { return nil, nil }`
abbrev pub missing_as_none : Result DbError Region × Store → Result DbError (Option Region) × Store
missing_as_none (ok r, s) = (ok (some r), s)
missing_as_none (err no_rows, s) = (ok none, s)
missing_as_none (err e, s) = (err e, s)

-- The transaction of `Update`
unfoldable pub write_region : RegionRow → Option Bool → Action Store DbError Region
unfolding exec transaction update_region_row clear_for
write_region new set_default = transaction do
  clear_for (asked set_default) (clear_other_defaults new.id)
  r ← exec (update_region_row new)
  pure (scanned r)

-- `Update`
unfoldable pub update_region : RegionRow → Option Bool → Action Store DbError (Option Region)
unfolding write_region
update_region new set_default s = missing_as_none (write_region new set_default s)

-- ON DELETE SET NULL
abbrev pub forget_region : ℕ → Option ℕ → Option ℕ
forget_region id x = if refers_to id x then none else x

abbrev pub drop_region : ℕ → Tables → Tables
drop_region id t = record t {
  regions = record t.regions {
    rows = keep (λ (r : RegionRow). not (by_region id r)) t.regions.rows;
  };
  tenants = record t.tenants {
    accounts =
        map
          (λ (a : AccountRow). record a {
            storage_region_id = forget_region id a.storage_region_id;
          })
          t.tenants.accounts;
    buckets =
        map
          (λ (b : BucketRow). record b { storage_region_id = forget_region id b.storage_region_id })
          t.tenants.buckets;
  };
}

-- DELETE FROM storage_regions WHERE id = $1, with the rows affected
unfoldable pub delete_region_row : ℕ → Tables → Result DbError Bool × Tables
delete_region_row id t = (ok (any (by_region id) t.regions.rows), drop_region id t)

-- An error of the database is the `err` of none of the three tests.
abbrev pub failing : {A : Type 0} → Result DbError A × Store → Result DeleteError A × Store
failing (ok a, s) = (ok a, s)
failing (err e, s) = (err failed, s)

abbrev pub run_query : {A : Type 0} → Action Store DbError A → Action Store DeleteError A
run_query m s = failing (m s)

-- `boundCount`
unfoldable pub bound_count : ℕ → Action Store DbError ℕ
unfolding query
bound_count id = query (λ t. ok (bound_accounts id t))

abbrev pub present : Option Region → Action Store DeleteError Region
present none = stop no_region
present (some r) = pure r

abbrev pub unless : Bool → DeleteError → Action Store DeleteError Unit
unless true e = stop e
unless false e = pure tt

-- `Delete`
unfoldable pub delete_region : ℕ → Action Store DeleteError Unit
unfolding exec get_region bound_count delete_region_row
delete_region id = do
  found ← run_query (get_region id)
  r ← present found
  unless r.row.is_default default_region
  n ← run_query (bound_count id)
  unless (ltb 0 n) bound_region
  affected ← run_query (exec (delete_region_row id))
  unless (not affected) no_region
