-- ===== src/Grants/Rows.antt =====
-- internal/grants/store.go
use osspilot_ops_api.Common.{
  ℕ, eqb, String, Bool, not, ◌&&◌, Option, none, some, List, [], ◌∷◌, ◌++◌, any, keep, first,
  if◌then◌else◌,
}
use osspilot_ops_api.Action.{Result, ok, err, Action, ◌>>◌, pure}
use osspilot_ops_api.Database.{DbError, unique_violation, broken, exec, query, transaction}
use osspilot_ops_api.Schema.{Tables, Store}
use osspilot_ops_api.Schema.Tenants.{GrantRow}
use osspilot_ops_api.Buckets.Rows.{by_bucket}
use osspilot_ops_api.Accounts.Rows.{by_account}

pub record Grant : Type 0 where
  pub bucket_id : ℕ
  pub bucket_name : String
  pub display_name : Option String
  pub granted_at : ℕ

abbrev pub of_account : ℕ → GrantRow → Bool
of_account id g = eqb g.account_id id

abbrev pub of_pair : ℕ → ℕ → GrantRow → Bool
of_pair account_id bucket_id g = eqb g.account_id account_id && eqb g.bucket_id bucket_id

-- JOIN platform_buckets b ON b.id = g.bucket_id
unfoldable pub join_grants : Tables → List GrantRow → List Grant
join_grants t [] = []
join_grants t (g ∷ gs) =
    let rest = join_grants t gs in
    elim (first (by_bucket g.bucket_id) t.tenants.buckets) [
      | none ↦ rest
      | some b ↦
          record {
            bucket_id = g.bucket_id;
            bucket_name = b.bucket_name;
            display_name = b.display_name;
            granted_at = g.granted_at;
          }
          ∷ rest
    ]

-- `collate` is the order of texts in the database.
module _ (collate : String → String → Bool) where
  unfoldable pub insert_grant_by_name : Grant → List Grant → List Grant
  insert_grant_by_name g [] = g ∷ []
  insert_grant_by_name g (x ∷ xs) =
      let later = insert_grant_by_name g xs in
      if collate g.bucket_name x.bucket_name then g ∷ x ∷ xs else x ∷ later

  unfoldable pub order_grants : List Grant → List Grant
  unfolding insert_grant_by_name
  order_grants [] = []
  order_grants (g ∷ gs) = insert_grant_by_name g (order_grants gs)

  -- `List`
  unfoldable pub list_grants : ℕ → Action Store DbError (List Grant)
  unfolding query order_grants
  list_grants account_id =
      query (λ t. ok (order_grants (join_grants t (keep (of_account account_id) t.tenants.grants))))

abbrev pub with_grants : (List GrantRow → List GrantRow) → Tables → Tables
with_grants f t = record t { tenants = record t.tenants { grants = f t.tenants.grants } }

abbrev pub grant_row : ℕ → ℕ → ℕ → GrantRow
grant_row account_id at bucket_id = record {
  account_id = account_id;
  bucket_id = bucket_id;
  granted_at = at;
}

-- INSERT INTO account_bucket_grants: the primary key and the two references
unfoldable pub insert_grant_row : GrantRow → Tables → Result DbError Unit × Tables
insert_grant_row g t =
    if any (of_pair g.account_id g.bucket_id) t.tenants.grants
    then (err unique_violation, t)
    else if any (by_account g.account_id) t.tenants.accounts
        && any (by_bucket g.bucket_id) t.tenants.buckets
    then (ok tt, with_grants (λ gs. gs ++ g ∷ []) t)
    else (err broken, t)

module _ (account_id at : ℕ) where
  -- The loop of `Replace`
  unfoldable pub insert_grants : List ℕ → Action Store DbError Unit
  insert_grants [] = pure tt
  insert_grants (id ∷ ids) = do
    exec (insert_grant_row (grant_row account_id at id))
    insert_grants ids

  -- The body of the transaction of `Replace`
  unfoldable pub replace_body : List ℕ → Action Store DbError Unit
  replace_body ids = do
    exec (λ t. (ok tt, with_grants (keep (λ g. not (of_account account_id g))) t))
    insert_grants ids

  -- `Replace`
  unfoldable pub replace_grants : List ℕ → Action Store DbError Unit
  replace_grants ids = transaction (replace_body ids)

-- `Revoke`, with whether it affected a row
unfoldable pub revoke_grant : ℕ → ℕ → Action Store DbError Bool
revoke_grant account_id bucket_id = exec (λ t. (
  ok (any (of_pair account_id bucket_id) t.tenants.grants),
  with_grants (keep (λ g. not (of_pair account_id bucket_id g))) t,
))
