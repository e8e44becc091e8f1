-- ===== src/Settings/Put.antt =====
-- `put` of internal/settings before and after its writes, and the tables.
use osspilot_ops_api.Common.{String, ◌≡◌, refl, sym, ap, true, Option, none, some, arith}
use osspilot_ops_api.Action.Keeps.{
  Keeps, Returns, Keeps-if, Keeps-pure, Keeps-guard, Keeps-require, Keeps-stop, Returns-bind,
  Returns-pure, Returns-require, Returns-guard, keeps_rules,
}
use osspilot_ops_api.Database.Keeps.{OnTables, Keeps-query, Returns-query}
use osspilot_ops_api.Http.{Exit, database}
use osspilot_ops_api.Http.Keeps.{handler_rules, Returns-database, Keeps-database}
use osspilot_ops_api.Schema.{Tables, Store}
use osspilot_ops_api.Auth.{Request}
use osspilot_ops_api.Auth.Accounts.{User}
use osspilot_ops_api.Regions.Rows.{list_regions}
use osspilot_ops_api.Project.{Client}
use osspilot_ops_api.Project.World.Keeps.{OnDb, Keeps-on_db, Keeps-on_remote}
use osspilot_ops_api.Settings.{
  SettingsHandler, loaded, runtime, listed, project_to, project_tenant, accept, read_update,
}
use osspilot_ops_api.Settings.Rows.{load}
use osspilot_ops_api.Settings.Valid.{UpdateSettings, validate_update}
use osspilot_ops_api.Settings.Public.{PublicSettings}

module _ {R : Type 0} (h : SettingsHandler R) where
  module _ {P : Tables → Type 0} where
    load-Keeps : Keeps (OnTables P) load
    unfolding load
    load-Keeps = Keeps-query _

    pub loaded-Keeps : Keeps (OnTables P) (loaded h)
    unfolding loaded
    loaded-Keeps = Keeps-if h.store _ _ load-Keeps (Keeps-pure _)

    listed-Keeps : Keeps (OnTables P) (listed h)
    unfolding list_regions
    listed-Keeps = Keeps-if h.regions _ _ (Keeps-query _) (Keeps-pure _)

    pub runtime-Keeps : Keeps (OnTables P) (runtime h)
    unfolding runtime
    runtime-Keeps = search (keeps_rules, loaded-Keeps) depth 20

    project_to-Keeps :
        (c : Client) (out : PublicSettings) → Keeps (OnDb (OnTables P)) (project_to h c out)
    unfolding project_to
    project_to-Keeps c out =
        search (keeps_rules, Keeps-on_db, Keeps-on_remote, listed-Keeps, runtime-Keeps) depth 30

    -- Sending the settings to the tenant API changes no table.
    pub project_tenant-Keeps :
        (c : Option Client) (out : PublicSettings)
        → Keeps (OnDb (OnTables P)) (project_tenant h c out)
    unfolding project_tenant
    project_tenant-Keeps none out = Keeps-pure tt
    project_tenant-Keeps (some c) out = project_to-Keeps c out

  -- A request that `put` accepts
  pub record Accepted (t : Tables) (r : Request UpdateSettings) (req : UpdateSettings)
      : Type 0 where
    pub body : r.body ≡ some req
    pub store : h.store ≡ true
    pub valid : validate_update h.to_lower req t.settings ≡ none

  module _ (t : Tables) (r : Request UpdateSettings) (user : Option User) where
    abbrev pub Before : Store → Type 0
    Before = OnTables (λ u. u ≡ t)

    accept-Keeps : (o : Option String) → Keeps {E = Exit PublicSettings} Before (accept h o)
    accept-Keeps none = Keeps-pure tt
    accept-Keeps (some message) = Keeps-stop _

    accept-Returns :
        (o : Option String)
        → Returns {E = Exit PublicSettings} Before (λ (_ : Unit {0}). o ≡ none) (accept h o)
    accept-Returns none = record { result = λ s k a e. refl }
    accept-Returns (some message) = record { result = λ s k a e. cc }

    pub read_update-Keeps : Keeps Before (read_update h r user)
    unfolding read_update
    read_update-Keeps = search (handler_rules, load-Keeps, accept-Keeps) depth 20

    load-Returns : Returns Before (λ rows. rows ≡ t.settings) load
    unfolding load
    load-Returns =
        Returns-query _ (λ u k rows e. ground (arith, e, ap (λ (x : Tables). x.settings) k))

    pub read_update-Accepted : Returns Before (Accepted t r) (read_update h r user)
    unfolding read_update
    read_update-Accepted =
        Returns-bind (λ _. h.store ≡ true) _ _ (Keeps-guard _ _) (Returns-guard _ _)
          λ _ stored.
            Returns-bind (λ req. r.body ≡ some req) _ _ (Keeps-require _ _)
              (Returns-require _ _ λ a e. e)
              λ req body.
                Returns-bind (λ rows. rows ≡ t.settings) (database load) _
                  (Keeps-database _ load-Keeps) (Returns-database _ load-Returns)
                  λ rows same.
                    Returns-bind (λ _. validate_update h.to_lower req rows ≡ none) _ _
                      (accept-Keeps _) (accept-Returns _)
                      λ _ valid.
                        Returns-pure req
                          (record { body = body; store = stored; valid = rw (sym same) valid })
