-- ===== src/Settings/Saving.antt =====
-- `put` of internal/settings, from the request to the table and the answer.
use osspilot_ops_api.Common.{ℕ, ◌≡◌, refl, ap, ◌⊎◌, inl, inr, true, Option, List}
use osspilot_ops_api.Action.{guard, ◌>>=◌}
use osspilot_ops_api.Action.Keeps.{Keeps-guard}
use osspilot_ops_api.Action.Triple.{
  Post, Triple, Triple-bind, Triple-keep, Triple-pure, Triple-frame_bind, Triple-weaken,
}
use osspilot_ops_api.Database.{query}
use osspilot_ops_api.Database.Keeps.{OnTables}
use osspilot_ops_api.Database.Triple.{Triple-exec}
use osspilot_ops_api.Http.{Response, json, database}
use osspilot_ops_api.Http.Triple.{Triple-database}
use osspilot_ops_api.Schema.{Tables}
use osspilot_ops_api.Schema.Audit.{AuditRow}
use osspilot_ops_api.Auth.{Request}
use osspilot_ops_api.Auth.Accounts.{User}
use osspilot_ops_api.Audit.Keeps.{write_for-Keeps}
use osspilot_ops_api.Project.World.{World, on_db}
use osspilot_ops_api.Project.World.Keeps.{OnDb, Keeps-on_db, Returns-on_db}
use osspilot_ops_api.Project.World.Triple.{Triple-on_db}
use osspilot_ops_api.Settings.{
  SettingsHandler, loaded, public, project_tenant, read_update, answer_update, put,
}
use osspilot_ops_api.Settings.Rows.{load}
use osspilot_ops_api.Settings.Valid.{UpdateSettings}
use osspilot_ops_api.Settings.Public.{PublicSettings, public_of}
use osspilot_ops_api.Settings.Fields.{fields, write_fields}
use osspilot_ops_api.Settings.Values.{Values, overlay, view}
use osspilot_ops_api.Settings.Effect.{Shows, Begun, write_fields-Shows}
use osspilot_ops_api.Settings.Put.{
  Accepted, Before, project_tenant-Keeps, read_update-Keeps, read_update-Accepted,
}

module _ {R : Type 0} (h : SettingsHandler R) (t : Tables) (r : Request UpdateSettings)
    (user : Option User) where
  module _ (m : Values) where
    Shows-audit :
        (u : Tables) (logs : List AuditRow)
        → Shows t m u
        → Shows t m (record u { audit_logs = logs })
    Shows-audit u logs k = record {
      values = k.values;
      rest = ap (λ (x : Tables). record x { audit_logs = logs }) k.rest;
    }

    -- The answer shows what is stored.
    record Answers (a : Response PublicSettings) (u : Tables) : Type 0 where
      pub shows : Shows t m u
      pub answer : a ≡ json 200 (public_of h.to_lower h.fallbacks u.settings)

    record Reads (out : PublicSettings) (u : Tables) : Type 0 where
      pub shows : Shows t m u
      pub read : out ≡ public_of h.to_lower h.fallbacks u.settings

    Reads-audit :
        (out : PublicSettings) (u : Tables) (logs : List AuditRow)
        → Reads out u
        → Reads out (record u { audit_logs = logs })
    Reads-audit out u logs k = record { shows = Shows-audit u logs k.shows; read = k.read }

    load-Triple :
        Triple
          (OnTables (Shows t m))
          load
          (λ rows. OnTables (λ u. Shows t m u × (rows ≡ u.settings)))
          (OnTables (Shows t m))
    unfolding load query
    load-Triple =
        Triple-exec (Shows t m) (Shows t m) (λ rows u. Shows t m u × (rows ≡ u.settings)) _
          (λ u k. (k, refl)) (λ u k. k)

    public-Triple :
        h.store ≡ true
        → Triple
            (OnTables (Shows t m))
            (public h)
            (λ out. OnTables (Reads out))
            (OnTables (Shows t m))
    unfolding public loaded
    public-Triple e = rw e (
        Triple-bind (λ rows. OnTables (λ u. Shows t m u × (rows ≡ u.settings))) load _ load-Triple
          λ rows. Triple-pure _ (λ u k. record {
            holds = record {
              shows = k.holds.0;
              read = ap (public_of h.to_lower h.fallbacks) k.holds.1;
            };
          }))

    out-Shows :
        (out : PublicSettings) (w : World R)
        → OnDb (OnTables (Reads out)) w
        → OnDb (OnTables (Shows t m)) w
    out-Shows out w k = record { holds = record { holds = k.holds.holds.shows } }

    answer_update-Answers :
        (changed : ℕ)
        → h.store ≡ true
        → Triple
            (OnDb (OnTables (Shows t m)))
            (answer_update h r user changed)
            (λ a. OnDb (OnTables (Answers a)))
            (OnDb (OnTables (Shows t m)))
    unfolding answer_update
    answer_update-Answers changed e =
        Triple-bind (λ _. OnDb (OnTables (Shows t m))) (guard _ _) _
          (Triple-keep _ (Keeps-guard _ _) (λ w k. k))
          λ _.
            Triple-bind (λ out. OnDb (OnTables (Reads out))) (on_db (database (public h))) _
              (Triple-on_db _ (Triple-database _ (public-Triple e)))
              λ out.
                Triple-bind (λ _. OnDb (OnTables (Reads out))) (project_tenant h h.project out) _
                  (Triple-keep _ (project_tenant-Keeps h h.project out) (λ w k. out-Shows out w k))
                  λ _.
                    Triple-bind (λ _. OnDb (OnTables (Reads out))) _ _
                      (Triple-keep _
                        (Keeps-on_db _ (
                          write_for-Keeps (Reads out) (Reads-audit out) h.log r.origin user _ _ _
                            _))
                        (λ w k. out-Shows out w k))
                      λ _. Triple-pure _ (λ w k. record {
                        holds = record {
                          holds = record {
                            shows = k.holds.holds.shows;
                            answer = ap (json 200) k.holds.holds.read;
                          };
                        };
                      })

  abbrev stored : UpdateSettings → Values
  stored req = overlay (fields req) (view t.settings)

  -- What the request asks for is stored, and the answer shows it.
  pub record Saved (a : Response PublicSettings) (u : Tables) : Type 0 where
    pub req : UpdateSettings
    pub accepted : Accepted h t r req
    pub shows : Shows t (stored req) u
    pub answer : a ≡ json 200 (public_of h.to_lower h.fallbacks u.settings)

  -- The first fields of the request are stored.
  pub record Partly (u : Tables) : Type 0 where
    pub req : UpdateSettings
    pub accepted : Accepted h t r req
    pub begun : Begun t (fields req) (view t.settings) u

  abbrev pub Unsaved : Tables → Type 0
  Unsaved u = (u ≡ t) ⊎ Partly u

  all_fields :
      (req : UpdateSettings) (u : Tables)
      → Shows t (stored req) u
      → Begun t (fields req) (view t.settings) u
  unfolding fields
  all_fields req u k = record { written = 23; shows = k }

  as_partly :
      (req : UpdateSettings) (w : World R)
      → Accepted h t r req
      → OnDb (OnTables (Begun t (fields req) (view t.settings))) w
      → OnDb (OnTables Unsaved) w
  as_partly req w acc k = record {
    holds = record { holds = inr (record { req = req; accepted = acc; begun = k.holds.holds }) };
  }

  unchanged : (w : World R) → OnDb (Before h t r user) w → OnDb (OnTables Unsaved) w
  unchanged w k = record { holds = record { holds = inl k.holds.holds } }

  at_start :
      (w : World R) → OnDb (Before h t r user) w → OnDb (OnTables (Shows t (view t.settings))) w
  at_start w k = record {
    holds = record { holds = rw k.holds.holds (record { values = refl; rest = refl }) };
  }

  saving :
      (req : UpdateSettings)
      → Accepted h t r req
      → Triple
          (OnDb (OnTables (Shows t (view t.settings))))
          (on_db (database (write_fields r.now (fields req))) >>= answer_update h r user)
          (λ a. OnDb (OnTables (Saved a)))
          (OnDb (OnTables Unsaved))
  saving req acc =
      Triple-bind (λ _. OnDb (OnTables (Shows t (stored req)))) _ _
        (Triple-weaken
          (Triple-on_db _
            (Triple-database _ (write_fields-Shows t r.now (fields req) (view t.settings))))
          (λ _ w k. k) (λ w k. as_partly req w acc k))
        λ changed.
          Triple-weaken (answer_update-Answers (stored req) changed acc.store)
            (λ a w k. record {
              holds = record {
                holds = record {
                  req = req;
                  accepted = acc;
                  shows = k.holds.holds.shows;
                  answer = k.holds.holds.answer;
                };
              };
            })
            (λ w k.
              as_partly req w acc
                (record { holds = record { holds = all_fields req _ k.holds.holds } }))

  put-Triple :
      Triple
        (OnDb (Before h t r user))
        (put h r user)
        (λ a. OnDb (OnTables (Saved a)))
        (OnDb (OnTables Unsaved))
  unfolding put
  put-Triple =
      Triple-frame_bind (Accepted h t r) (on_db (read_update h r user)) _
        (Keeps-on_db _ (read_update-Keeps h t r user))
        (Returns-on_db _ (read_update-Accepted h t r user)) unchanged
        λ req acc. record { at = λ w k. (saving req acc).at w (at_start w k) }

  -- What `put` does to the tables, whatever faults occur and whatever the tenant API answers. Where
  -- it answers 200, the request passed the checks, the stored settings are the old ones with every field of
  -- the request written over them, the answer shows what is then stored, and no other table
  -- changed but the audit log. Where it answers an error, the tables are unchanged, or the request passed
  -- the checks and the first of its fields are written over the old settings, and nothing else.
  pub put_effect :
      (w : World R)
      → w.db.tables ≡ t
      → Post (λ a. OnDb (OnTables (Saved a))) (OnDb (OnTables Unsaved)) (put h r user w)
  put_effect w e = put-Triple.at w (record { holds = record { holds = e } })
