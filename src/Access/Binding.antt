-- ===== src/Access/Binding.antt =====
-- The items that `list` of internal/access answers.
use osspilot_ops_api.Common.{
  ℕ, eqb, String, ◌≡◌, refl, ap, ◌∙◌, true, ◌&&◌, ◌||◌, some, List, [], ◌∷◌, map, any, length, All,
  arith, inl, inr, Option-cases, ◌==◌, eqb_iff,
}
use osspilot_ops_api.Common.Int.{pos}
use osspilot_ops_api.Action.{Result, ok, err, attempt}
use osspilot_ops_api.Action.Keeps.{
  Keeps, Returns, Keeps-if, Keeps-attempt, Keeps-pure, Returns-bind, Returns-bind_any, Returns-pure,
}
use osspilot_ops_api.Database.{DbError}
use osspilot_ops_api.Database.Keeps.{OnTables, Keeps-query, Returns-query}
use osspilot_ops_api.Http.{Response, json, Exit, database}
use osspilot_ops_api.Http.Keeps.{handler_rules, Keeps-database, Keeps-refuse, Returns-database}
use osspilot_ops_api.Schema.{Tables}
use osspilot_ops_api.Schema.Tenants.{AccountRow}
use osspilot_ops_api.Accounts.Rows.{Account, scan_account, list_accounts}
use osspilot_ops_api.Project.{CallError, http_error, failed}
use osspilot_ops_api.Project.Reads.{AccessItem, list_access}
use osspilot_ops_api.Project.World.{World, on_db, on_remote}
use osspilot_ops_api.Project.World.Keeps.{OnDb, Keeps-on_db, Keeps-on_remote, Returns-on_db}
use osspilot_ops_api.Access.{
  AccessHandler, AccessBody, access_items, by_name, bind_ops_ids, or_upstream, ready, list,
}

-- An account of a table has the name and the id.
abbrev pub Names : List AccountRow → String → ℕ → Type 0
Names rows name id = any (λ a. a.username == name && eqb a.id id) rows ≡ true

pub record IsBound (rows : List AccountRow) (it : AccessItem) : Type 0 where
  pub id : ℕ
  pub account_id : it.account_id ≡ pos id
  pub names : Names rows it.account_name id

by_name-Names :
    (t : Tables) (rows : List AccountRow) (name : String) (id : ℕ)
    → by_name (map (scan_account t) rows) name ≡ some id
    → Names rows name id
unfolding by_name scan_account
by_name-Names t [] name id e = cc
by_name-Names t (a ∷ rows) name id e =
    elim (Option-cases (by_name (map (scan_account t) rows) name)) [
      | inl missing ↦ ground (arith, missing, e, eqb_iff a.id id)
      | inr (n, found) ↦ ground (arith, found, e, by_name-Names t rows name id)
    ]

bind_ops_ids-IsBound :
    (t : Tables) (rows : List AccountRow) (its : List AccessItem)
    → All (IsBound rows) (bind_ops_ids its (by_name (map (scan_account t) rows)))
unfolding bind_ops_ids
bind_ops_ids-IsBound t rows [] = tt
bind_ops_ids-IsBound t rows (it ∷ its) =
    let rest = bind_ops_ids-IsBound t rows its in
    elim (Option-cases (by_name (map (scan_account t) rows) it.account_name)) [
      | inl missing ↦ rw missing rest
      | inr (id, found) ↦ rw found (
        record {
          id = id;
          account_id = refl;
          names = by_name-Names t rows it.account_name id found;
        },
        rest,
      )
    ]

-- An answer of items with their number, each with the id of an account of its name
abbrev pub Listed : List AccountRow → Response AccessBody → Type 0
Listed rows (json status (access_items out n)) = (n ≡ length out) × All (IsBound rows) out
Listed rows _ = ⊥

module _ {R : Type 0} (h : AccessHandler R) (t : Tables) where
  abbrev Before : World R → Type 0
  Before = OnDb (OnTables (λ u. u ≡ t))

  or_upstream-Before :
      {A : Type 0} (o : Result CallError A) → Keeps {E = Exit AccessBody} Before (or_upstream o)
  or_upstream-Before (ok a) = Keeps-pure a
  or_upstream-Before (err failed) = Keeps-refuse 502 "tenant api error"
  or_upstream-Before (err (http_error status detail)) =
      Keeps-if (eqb status 404 || eqb status 409 || eqb status 400) _ _ (Keeps-refuse status detail)
        (Keeps-refuse 502 "tenant api error")

  rows_of :
      (u : Tables) (accs : List Account)
      → ◌≡◌ {A = Result DbError (List Account)}
          (ok (map (scan_account u) u.tenants.accounts))
          (ok accs)
      → accs ≡ map (scan_account u) u.tenants.accounts
  rows_of u accs e = ground (arith, e)

  accounts-Keeps : Keeps (OnTables (λ (u : Tables). u ≡ t)) list_accounts
  unfolding list_accounts
  accounts-Keeps = Keeps-query _

  accounts-Returns :
      Returns
        (OnTables (λ (u : Tables). u ≡ t))
        (λ accs. accs ≡ map (scan_account t) t.tenants.accounts)
        list_accounts
  unfolding list_accounts
  accounts-Returns = Returns-query _ (λ u same accs e.
      rows_of u accs e ∙ ap (λ (x : Tables). map (scan_account x) x.tenants.accounts) same)

  ready-Before : Keeps (OnTables (λ (u : Tables). u ≡ t)) (ready h)
  unfolding ready
  ready-Before = search handler_rules depth 10

  list-Returns : (status : String) → Returns Before (Listed t.tenants.accounts) (list h status)
  unfolding list
  list-Returns status = Returns-bind_any (on_db (ready h)) _ (Keeps-on_db _ ready-Before) λ client.
      Returns-bind_any (attempt (on_remote (list_access h.net h.decode client status))) _
        (Keeps-attempt _ (Keeps-on_remote _))
        λ outcome. Returns-bind_any (or_upstream outcome) _ (or_upstream-Before outcome) λ found.
          Returns-bind (λ accs. accs ≡ map (scan_account t) t.tenants.accounts)
            (on_db (database list_accounts)) _ (Keeps-on_db _ (Keeps-database _ accounts-Keeps))
            (Returns-on_db _ (Returns-database _ accounts-Returns))
            λ accs same.
              Returns-pure
                (json 200 (
                  access_items (bind_ops_ids found (by_name accs))
                    (length (bind_ops_ids found (by_name accs)))))
                (refl, rw same (bind_ops_ids-IsBound t t.tenants.accounts found))

  -- Where `list` answers without an error, whatever the tenant API sends: the answer has the number of
  -- its items, and each item has the id of an account of the table whose name it has.
  pub list-Listed :
      (status : String) (w : World R) (a : Response AccessBody)
      → w.db.tables ≡ t
      → (list h status w).0 ≡ ok a
      → Listed t.tenants.accounts a
  list-Listed status w a e done =
      (list-Returns status).result w (record { holds = record { holds = e } }) a done
