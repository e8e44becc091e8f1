-- ===== src/Accounts/Rows.antt =====
-- internal/accounts/store.go
use Prim.Native.String.{count}
use osspilot_ops_api.Common.{
  ℕ, eqb, leb, ◌+◌, String, Bool, true, false, not, ◌&&◌, Option, none, some, List, [], ◌∷◌, ◌++◌,
  map, any, keep, first, ◌==◌, if◌then◌else◌,
}
use osspilot_ops_api.Action.{Result, ok, err, Action, ◌>>=◌, pure}
use osspilot_ops_api.Database.{DbError, no_rows, unique_violation, broken, exec, query}
use osspilot_ops_api.Schema.{Tables, Store}
use osspilot_ops_api.Schema.Regions.{RegionRow}
use osspilot_ops_api.Schema.Tenants.{AccountRow, GrantRow}
use osspilot_ops_api.Schema.Audit.{AuditRow}
use osspilot_ops_api.Schema.Alerts.{EventRow}
use osspilot_ops_api.Buckets.Rows.{region_of, region_exists, short_enough}

-- `RegionBrief`
pub record AccountRegion : Type 0 where
  pub id : ℕ
  pub code : String
  pub name : String
  pub s3_endpoint : String
  pub s3_region_name : String

-- `Record`, whose row is the other fields
pub record Account : Type 0 where
  pub row : AccountRow
  pub open row use *
  pub storage_region : Option AccountRegion

abbrev pub by_account : ℕ → AccountRow → Bool
by_account id a = eqb a.id id

abbrev pub region_brief : Option RegionRow → Option AccountRegion
region_brief none = none
region_brief (some r) = some (record {
  id = r.id;
  code = r.code;
  name = r.name;
  s3_endpoint = r.s3_endpoint;
  s3_region_name = r.s3_region_name;
})

-- `scan`
unfoldable pub scan_account : Tables → AccountRow → Account
unfolding region_of
scan_account t a = record {
  row = a;
  storage_region = region_brief (region_of t a.storage_region_id);
}

abbrev pub found_account : Tables → Option AccountRow → Option Account
found_account t none = none
found_account t (some a) = some (scan_account t a)

-- `List`
unfoldable pub list_accounts : Action Store DbError (List Account)
unfolding query
list_accounts = query (λ t. ok (map (scan_account t) t.tenants.accounts))

-- `GetByID`
unfoldable pub get_account : ℕ → Action Store DbError (Option Account)
unfolding query
get_account id = query (λ t. ok (found_account t (first (by_account id) t.tenants.accounts)))

unfoldable pub account_fits : AccountRow → Bool
account_fits a =
    leb (count a.username) 64
    && leb (count a.password_hash) 255
    && short_enough 128 a.display_name
    && short_enough 255 a.email
    && short_enough 32 a.phone
    && leb (count a.status) 32

abbrev pub add_account : AccountRow → Tables → Tables
add_account a t = record t {
  tenants = record t.tenants {
    accounts = t.tenants.accounts ++ a ∷ [];
    next_account_id = t.tenants.next_account_id + 1;
  };
}

-- INSERT INTO tenant_accounts: the lengths, the unique index on `username`, the reference
unfoldable pub insert_account_row : (ℕ → AccountRow) → Tables → Result DbError ℕ × Tables
insert_account_row row t =
    let a = row t.tenants.next_account_id in
    if not (account_fits a)
    then (err broken, t)
    else if any (λ x. x.username == a.username) t.tenants.accounts
    then (err unique_violation, t)
    else if region_exists t a.storage_region_id
    then (ok a.id, add_account a t)
    else (err broken, t)

-- `Insert`. The row that it reads back is `none` where it is gone.
unfoldable pub insert_account : (ℕ → AccountRow) → Action Store DbError (Option Account)
insert_account row = do id ← exec (insert_account_row row); get_account id

abbrev pub with_accounts : (List AccountRow → List AccountRow) → Tables → Tables
with_accounts f t = record t { tenants = record t.tenants { accounts = f t.tenants.accounts } }

-- UPDATE tenant_accounts SET …
abbrev pub set_account : AccountRow → AccountRow → AccountRow
set_account new old = record old {
  display_name = new.display_name;
  email = new.email;
  phone = new.phone;
  status = new.status;
  quota_bytes = new.quota_bytes;
  object_limit = new.object_limit;
  daily_upload_bytes = new.daily_upload_bytes;
  bucket_limit = new.bucket_limit;
  storage_region_id = new.storage_region_id;
  updated_at = new.updated_at;
}

abbrev pub set_accounts : AccountRow → List AccountRow → List AccountRow
set_accounts new = map (λ a. if by_account new.id a then set_account new a else a)

-- … WHERE id = $1, with whether it affected a row
unfoldable pub update_account_row : AccountRow → Tables → Result DbError Bool × Tables
update_account_row new t =
    if not (any (by_account new.id) t.tenants.accounts)
    then (ok false, t)
    else if any (λ a. by_account new.id a && not (account_fits (set_account new a)))
        t.tenants.accounts
    then (err broken, t)
    else if region_exists t new.storage_region_id
    then (ok true, with_accounts (set_accounts new) t)
    else (err broken, t)

read_back : ℕ → Bool → Action Store DbError (Option Account)
read_back id false = pure none
read_back id true = get_account id

-- `Update`
unfoldable pub update_account : AccountRow → Action Store DbError (Option Account)
unfolding read_back
update_account new = do affected ← exec (update_account_row new); read_back new.id affected

abbrev pub secret_of : Option AccountRow → String × Bool
secret_of none = ("", false)
secret_of (some a) = (a.password_hash, a.must_change_password)

-- `Secret`
unfoldable pub secret : ℕ → Action Store DbError (String × Bool)
unfolding query
secret id = query (λ t. ok (secret_of (first (by_account id) t.tenants.accounts)))

abbrev pub set_password : ℕ → String → ℕ → List AccountRow → List AccountRow
set_password id hash at =
    map (λ a. if by_account id a then record a { password_hash = hash; updated_at = at } else a)

-- `RowsAffected() == 0` is `pgx.ErrNoRows`.
abbrev pub affecting_account : ℕ → (Tables → Tables) → Tables → Result DbError Unit × Tables
affecting_account id f t =
    if any (by_account id) t.tenants.accounts then (ok tt, f t) else (err no_rows, t)

-- `UpdatePassword`, which leaves `must_change_password` as it is
unfoldable pub update_account_password : ℕ → String → ℕ → Action Store DbError Unit
update_account_password id hash at =
    exec (affecting_account id (with_accounts (set_password id hash at)))

abbrev pub forget : ℕ → Option ℕ → Option ℕ
forget id none = none
forget id (some n) = if eqb n id then none else some n

-- DELETE FROM tenant_accounts WHERE id = $1: the grants go, logs and events lose the reference.
unfoldable pub drop_account : ℕ → Tables → Tables
drop_account id t = record t {
  tenants = record t.tenants {
    accounts = keep (λ (a : AccountRow). not (by_account id a)) t.tenants.accounts;
    grants = keep (λ (g : GrantRow). not (eqb g.account_id id)) t.tenants.grants;
  };
  alerts = record t.alerts {
    events = map (λ (e : EventRow). record e { tenant_id = forget id e.tenant_id }) t.alerts.events;
  };
  audit_logs = map (λ (e : AuditRow). record e { tenant_id = forget id e.tenant_id }) t.audit_logs;
}

-- `Delete`
unfoldable pub remove_account : ℕ → Action Store DbError Unit
remove_account id = exec (affecting_account id (drop_account id))
