-- ===== src/Accounts/Lookup.antt =====
-- Reading an account by its id.
use osspilot_ops_api.Common.{none, ℕ, ◌≡◌, ap, Option, some, first, arith, ◌∙◌, sym}
use osspilot_ops_api.Common.Decimal.{parse_id}
use osspilot_ops_api.Action.Keeps.{Keeps, Returns}
use osspilot_ops_api.Database.Keeps.{OnTables, Keeps-query, Returns-query}
use osspilot_ops_api.Schema.{Tables, Store}
use osspilot_ops_api.Schema.Tenants.{AccountRow}
use osspilot_ops_api.Auth.{Request}
use osspilot_ops_api.Accounts.Rows.{Account, by_account, found_account, get_account, scan_account}

-- Before anything is written, a handler sees the tables `t`.
module _ (t : Tables) where
  abbrev pub At : Store → Type 0
  At = OnTables (λ (u : Tables). u ≡ t)

  pub get_account-At : (id : ℕ) → Keeps At (get_account id)
  unfolding get_account
  get_account-At id = Keeps-query _

  -- The row of an id
  pub record FoundAt (id : ℕ) (found : Option Account) : Type 0 where
    pub row :
        (acct : Account)
        → found ≡ some acct
        → first (by_account id) t.tenants.accounts ≡ some acct.row

  found_account-row :
      (u : Tables) (o : Option AccountRow) (acct : Account)
      → found_account u o ≡ some acct
      → o ≡ some acct.row
  unfolding scan_account
  found_account-row u none acct e = cc
  found_account-row u (some a) acct e = ground (arith, e)

  pub get_account-FoundAt : (id : ℕ) → Returns At (FoundAt id) (get_account id)
  unfolding get_account
  get_account-FoundAt id = Returns-query _ λ u same found e. record {
    row = λ acct q.
        let here : found_account u (first (by_account id) u.tenants.accounts) ≡ found =
          ground arith in
        ap (λ (x : Tables). first (by_account id) x.tenants.accounts) (sym same)
        ∙ found_account-row u _ acct (here ∙ q);
  }

  -- The account of the id that the path of a request has
  pub record Asked {Q : Type 0} (r : Request Q) (acct : Account) : Type 0 where
    pub id : ℕ
    pub parsed : parse_id (r.path_value "user_id") ≡ some id
    pub row : first (by_account id) t.tenants.accounts ≡ some acct.row
