-- ===== src/Accounts/Effects.antt =====
-- What `create` and `remove` of internal/accounts do to the database.
use osspilot_ops_api.Common.{ℕ, String, ◌≡◌, ◌∙◌, Bool, Option, some, arith}
use osspilot_ops_api.Common.Decimal.{parse_id}
use osspilot_ops_api.Action.{Result, ok, err, Action, require}
use osspilot_ops_api.Action.Keeps.{
  Keeps, Returns, Keeps-require, Keeps-guard, Returns-bind, Returns-bind_any, Returns-require,
}
use osspilot_ops_api.Action.Triple.{
  Post, Triple, Triple-bind, Triple-keep, Triple-frame_bind, Triple-attempt, Triple-pure,
}
use osspilot_ops_api.Database.{DbError, no_rows, unique_violation, broken}
use osspilot_ops_api.Database.Keeps.{OnTables}
use osspilot_ops_api.Database.Triple.{Triple-exec}
use osspilot_ops_api.Http.{no_content, Exit, reply, error}
use osspilot_ops_api.Http.Keeps.{handler_rules, Keeps-database, Returns-database}
use osspilot_ops_api.Schema.{Tables, Store}
use osspilot_ops_api.Schema.Tenants.{TenantTables}
use osspilot_ops_api.Audit.{Origin}
use osspilot_ops_api.Audit.Actor.{write_for, write_for_lem}
use osspilot_ops_api.Auth.{Request}
use osspilot_ops_api.Auth.Accounts.{User}
use osspilot_ops_api.Project.{Network, delete_account}
use osspilot_ops_api.Project.World.{World, on_db, on_remote}
use osspilot_ops_api.Project.World.Keeps.{OnDb, Keeps-on_db, Keeps-on_remote, Returns-on_db}
use osspilot_ops_api.Project.World.Triple.{Triple-on_db}
use osspilot_ops_api.Accounts.{
  AccountsHandler, AccountBody, or_502, projected, load, path_id, with_store, account_removed,
  remove,
}
use osspilot_ops_api.Accounts.Rows.{Account, drop_account, remove_account}
use osspilot_ops_api.Accounts.Lookup.{At, get_account-At, Asked, FoundAt, get_account-FoundAt}

module _ {S E A : Type 0} {P : S → Type 0} where
  Keeps-or_502 : (r : Result E A) → Keeps P (or_502 r)
  Keeps-or_502 (ok a) = record { at = λ s h. h }
  Keeps-or_502 (err e) = record { at = λ s h. h }

  pub Keeps-projected : (m : Action S E A) → Keeps P m → Keeps P (projected m)
  Keeps-projected m km = record { at = λ s h. (Keeps-or_502 (m s).0).at (m s).1 (km.at s h) }

module _ (t : Tables) {Q : Type 0} (h : AccountsHandler) (r : Request Q) where
  path_id-At : Keeps (At t) (path_id r)
  unfolding path_id
  path_id-At = Keeps-require _ _

  with_store-At : Keeps (At t) (with_store h)
  unfolding with_store
  with_store-At = Keeps-guard _ _

  pub load-At : Keeps (At t) (load h r)
  unfolding load
  load-At = search (handler_rules, path_id-At, with_store-At, get_account-At) depth 20

  pub load-Asked : Returns (At t) (Asked t r) (load h r)
  unfolding load path_id
  load-Asked =
      Returns-bind (λ id. parse_id (r.path_value "user_id") ≡ some id) _ _ path_id-At
        (Returns-require _ _ (λ a e. e))
        λ id parsed. Returns-bind_any _ _ with_store-At λ _.
          Returns-bind (FoundAt t id) _ (require (reply (error 404 "User not found")))
            (Keeps-database _ (get_account-At t id)) (Returns-database _ (get_account-FoundAt t id))
            λ found at.
              Returns-require (reply (error 404 "User not found")) found
                (λ acct e. record { id = id; parsed = parsed; row = at.row acct e })

-- The rows of the tenants are these.
abbrev pub Tenants : {R : Type 0} → TenantTables → World R → Type 0
Tenants tenants = OnDb (OnTables (λ u. u.tenants ≡ tenants))

-- The note in the audit log always goes on, and leaves the tenants alone.
module _ {R : Type 0} (log : Bool) (origin : Origin) (user : Option User) (action : String) where
  noted-Post :
      (X : World R → Type 0) (tenants : TenantTables) (out : Result (Exit AccountBody) Unit × Store)
      (w : World R)
      → out.0 ≡ ok tt
      → out.1.tables.tenants ≡ tenants
      → Post (λ _. Tenants tenants) X (out.0, record w { db = out.1 })
  noted-Post X tenants (ok a, s) w good same = record { holds = record { holds = same } }
  noted-Post X tenants (err e, s) w good same = cc

  pub noted :
      {X : World R → Type 0} (tenants : TenantTables)
      → Triple {E = Exit AccountBody}
          (Tenants tenants)
          (on_db (write_for log origin user action "" "success" ""))
          (λ _. Tenants tenants)
          X
  unfolding on_db
  noted {X} tenants = record {
    at = λ w h.
        let done = write_for_lem AccountBody log origin action "" "success" "" w.db user in
        noted-Post X tenants _ w done.0 (done.3 ∙ h.holds.holds);
  }

module _ {R : Type 0} (net : Network R) (h : AccountsHandler) {Q : Type 0} (r : Request Q)
    (user : Option User) (t : Tables) where
  -- The account of the id in the path is gone with its grants.
  pub record Removed (w : World R) : Type 0 where
    pub acct : Account
    pub asked : Asked t r acct
    pub tenants : w.db.tables.tenants ≡ (drop_account acct.row.id t).tenants

  abbrev pub Start : World R → Type 0
  Start = OnDb (At t)

  dropped :
      (id : ℕ)
      → Triple {E = DbError} Start
          (on_db (remove_account id))
          (λ _. Tenants (drop_account id t).tenants)
          Start
  unfolding remove_account
  dropped id = Triple-on_db _ (
      Triple-exec (λ u. u ≡ t) (λ u. u ≡ t) (λ _ u. u.tenants ≡ (drop_account id t).tenants) _
        (λ u e. ground arith) (λ u e. e))

  answered :
      (id : ℕ) (outcome : Result DbError Unit)
      → Triple {E = Exit AccountBody}
          (λ w. Post (λ _. Tenants (drop_account id t).tenants) Start (outcome, w))
          (on_db (account_removed outcome))
          (λ _. Tenants (drop_account id t).tenants)
          Start
  unfolding on_db
  answered id (ok _) = record { at = λ w k. k }
  answered id (err no_rows) = record { at = λ w k. k }
  answered id (err unique_violation) = record { at = λ w k. k }
  answered id (err broken) = record { at = λ w k. k }

  remove-Removed : Triple Start (remove net h r user) (λ _. Removed) Start
  unfolding remove
  remove-Removed =
      Triple-frame_bind (Asked t r) _ _ (Keeps-on_db _ (load-At t h r))
        (Returns-on_db _ (load-Asked t h r)) (λ w k. k)
        λ acct row.
          Triple-bind (λ _. Start)
            (projected (on_remote (delete_account net h.project acct.row.username))) _
            (Triple-keep _ (Keeps-projected _ (Keeps-on_remote _)) (λ w k. k))
            λ _.
              Triple-bind
                (λ outcome w.
                  Post (λ _. Tenants (drop_account acct.row.id t).tenants) Start (outcome, w))
                _ _ (Triple-attempt _ (dropped acct.row.id))
                λ outcome.
                  Triple-bind (λ _. Tenants (drop_account acct.row.id t).tenants) _ _
                    (answered acct.row.id outcome)
                    λ _.
                      Triple-bind (λ _. Tenants (drop_account acct.row.id t).tenants) _ _
                        (noted h.audit r.origin user "delete_tenant"
                          (drop_account acct.row.id t).tenants)
                        λ _.
                          Triple-pure no_content
                            (λ w k. record { acct = acct; asked = row; tenants = k.holds.holds })

  pub remove_effect :
      (w : World R) → w.db.tables ≡ t → Post (λ _. Removed) Start (remove net h r user w)
  remove_effect w e = remove-Removed.at w (record { holds = record { holds = e } })
