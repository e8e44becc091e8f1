-- ===== src/Settings/Puts.antt =====
-- Requests to internal/settings one after the other.
use osspilot_ops_api.Common.{ℕ, String, ◌≡◌, refl, false, Option, []}
use osspilot_ops_api.Action.Keeps.{Keeps, Keeps-bind, keeps_rules}
use osspilot_ops_api.Database.Keeps.{OnTables}
use osspilot_ops_api.Schema.{Tables}
use osspilot_ops_api.Auth.{Request}
use osspilot_ops_api.Auth.Accounts.{User}
use osspilot_ops_api.Project.World.{World, on_db}
use osspilot_ops_api.Project.World.Keeps.{OnDb, Keeps-on_db, Returns-on_db}
use osspilot_ops_api.Http.{database}
use osspilot_ops_api.Http.Keeps.{handler_rules, Keeps-database}
use osspilot_ops_api.Audit.Keeps.{write_for-Keeps}
use osspilot_ops_api.Action.Triple.{Post-same, Triple, Triple-frame_bind, Triple-keep}
use osspilot_ops_api.Action.{◌>>=◌}
use osspilot_ops_api.Settings.{SettingsHandler, public, answer_update, read_update, put}
use osspilot_ops_api.Settings.Rows.{Fallbacks}
use osspilot_ops_api.Settings.Valid.{UpdateSettings, out_of}
use osspilot_ops_api.Settings.Put.{
  Accepted, Before, loaded-Keeps, project_tenant-Keeps, read_update-Keeps, read_update-Accepted,
}
use osspilot_ops_api.Settings.Fields.{fields, write_fields}
use osspilot_ops_api.Settings.Public.{PublicSettings, public_of}
use osspilot_ops_api.Settings.Ranges.{
  RangesHold, write_fields-RangesHold, fields-Fits, pick_int-InRange,
}

module _ {R : Type 0} (h : SettingsHandler R) (r : Request UpdateSettings)
    (user : Option User) where
  abbrev Ranged : World R → Type 0
  Ranged = OnDb (OnTables RangesHold)

  public-RangesHold : Keeps (OnTables RangesHold) (public h)
  unfolding public
  public-RangesHold = search (keeps_rules, loaded-Keeps) depth 20

  answer_update-RangesHold : (changed : ℕ) → Keeps Ranged (answer_update h r user changed)
  unfolding answer_update
  answer_update-RangesHold changed =
      search
        (
          handler_rules,
          Keeps-on_db,
          public-RangesHold,
          project_tenant-Keeps,
          write_for-Keeps RangesHold (λ t logs k. record { all = k.all }),
        )
        depth 30

  put-RangesHold :
      (t : Tables)
      → RangesHold t
      → Triple (OnDb (Before h t r user)) (put h r user) (λ _. Ranged) Ranged
  unfolding put
  put-RangesHold t start =
      let begin : (w : World R) → OnDb (Before h t r user) w → Ranged w =
        λ w k. record { holds = record { holds = rw k.holds.holds start } } in
      Triple-frame_bind (Accepted h t r) (on_db (read_update h r user)) _
        (Keeps-on_db _ (read_update-Keeps h t r user))
        (Returns-on_db _ (read_update-Accepted h t r user)) begin
        λ req acc.
          let writes =
            write_fields-RangesHold r.now (fields req)
              (fields-Fits h.to_lower req t.settings acc.valid) in
          let rest : Keeps Ranged
              (on_db (database (write_fields r.now (fields req))) >>= answer_update h r user) =
            Keeps-bind _ _ (Keeps-on_db _ (Keeps-database _ writes)) answer_update-RangesHold in
          record { at = λ w k. (Triple-keep _ rest (λ v q. q)).at w (begin w k) }

-- Requests to `put` one after the other, by any callers, before each of which faults may be set and
-- the tenant API may change.
pub data Puts (R : Type 0) (start : Tables) : Tables → Type 0 where
  no_puts : Puts R start start
  then_put :
      {t u : Tables} (h : SettingsHandler R) (r : Request UpdateSettings) (user : Option User)
      (w : World R)
      → Puts R start t
      → w.db.tables ≡ t
      → u ≡ (put h r user w).1.db.tables
      → Puts R start u

module _ {R : Type 0} where
  Puts-RangesHold : {t u : Tables} → Puts R t u → RangesHold t → RangesHold u
  Puts-RangesHold no_puts k = k
  Puts-RangesHold {t = start} (then_put {t} h r user w before e q) k =
      let earlier = Puts-RangesHold before k in
      let after =
        Post-same (Ranged h r user) (put h r user w)
          ((put-RangesHold h r user t earlier).at w (record { holds = record { holds = e } })) in
      rw q after.holds.holds

-- The numbers with a range, as they are shown
pub record ShownInRange (p : PublicSettings) : Type 0 where
  pub upload : out_of 600 1800 p.default_upload_presign_expires ≡ false
  pub download : out_of 300 600 p.default_download_presign_expires ≡ false
  pub trash : out_of 0 3650 p.trash_retention_days ≡ false
  pub version : out_of 0 3650 p.version_retention_days ≡ false
  pub multipart : out_of 0 3650 p.multipart_stale_days ≡ false

-- After any sequence of requests to `put` from tables without settings, whatever they ask, whatever
-- faults occur in them and whatever the tenant API answers, the settings that `public` shows are in
-- range: uploads expire after 600 to 1800 seconds, downloads after 300 to 600, and the three numbers of
-- days are 0 to 3650.
pub Puts-ShownInRange :
    {R : Type 0} {t u : Tables} (to_lower : String → String) (fb : Fallbacks)
    → Puts R t u
    → t.settings ≡ []
    → ShownInRange (public_of to_lower fb u.settings)
unfolding public_of
Puts-ShownInRange {R} {t} {u} to_lower fb puts e =
    let k = (Puts-RangesHold puts (record { all = rw e tt })).all in
    record {
      upload = pick_int-InRange u.settings "default_upload_presign_expires" 600 1800 _ k refl refl;
      download =
          pick_int-InRange u.settings "default_download_presign_expires" 300 600 _ k refl refl;
      trash = pick_int-InRange u.settings "trash_retention_days" 0 3650 _ k refl refl;
      version = pick_int-InRange u.settings "version_retention_days" 0 3650 _ k refl refl;
      multipart = pick_int-InRange u.settings "multipart_stale_days" 0 3650 _ k refl refl;
    }
