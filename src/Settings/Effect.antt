-- ===== src/Settings/Effect.antt =====
-- `put` of internal/settings against the map from keys to values that the rows stand for.
use osspilot_ops_api.Common.{
  ℕ, suc, String, ◌≡◌, refl, ap, ◌∙◌, Bool, Option, none, some, List, [], ◌∷◌, take,
}
use osspilot_ops_api.Action.{Action}
use osspilot_ops_api.Action.Triple.{Triple, Triple-bind, Triple-pure, Triple-weaken}
use osspilot_ops_api.Database.{DbError}
use osspilot_ops_api.Database.Keeps.{OnTables}
use osspilot_ops_api.Database.Triple.{Triple-exec}
use mathlib.Core.Path.{subst}
use osspilot_ops_api.Schema.{Tables, Store}
use osspilot_ops_api.Schema.Settings.{SettingRow}
use osspilot_ops_api.Settings.Rows.{put_row, with_settings, upsert}
use osspilot_ops_api.Settings.Fields.{Field, write_value, write_fields}
use osspilot_ops_api.Settings.Values.{
  Values, updated, step, overlay, view, view-put_row, step-eq-none, updated-eq-step,
}

-- The tables of `t` but for the settings, which stand for `m`, and the audit log
pub record Shows (t : Tables) (m : Values) (u : Tables) : Type 0 where
  pub values : view u.settings ≡ m
  pub rest : u ≡ record t { settings = u.settings; audit_logs = u.audit_logs }

-- Some first fields are written.
pub record Begun (t : Tables) (fs : List Field) (m : Values) (u : Tables) : Type 0 where
  pub written : ℕ
  pub shows : Shows t (overlay (take written fs) m) u

module _ (t : Tables) (now : ℕ) where
  upsert-Shows :
      (key value : String) (secret : Bool) (m : Values)
      → Triple
          (OnTables (Shows t m))
          (upsert now key value secret)
          (λ (_ : Unit {0}). OnTables (Shows t (updated key value m)))
          (OnTables (Shows t m))
  unfolding upsert
  upsert-Shows key value secret m =
      let new : SettingRow = record {
        key = key;
        value = value;
        is_secret = secret;
        updated_at = now;
      } in
      Triple-exec (Shows t m) (Shows t m) (λ _. Shows t (updated key value m)) _
        (λ u h. record {
          values = view-put_row new u.settings ∙ ap (updated key value) h.values;
          rest = ap (λ (x : Tables). with_settings (λ _. put_row new u.settings) x) h.rest;
        })
        (λ u h. h)

  -- The fields before `f` and those after it
  later :
      (f : Field) (fs : List Field) (m : Values) (u : Tables)
      → Begun t fs (step f m) u
      → Begun t (f ∷ fs) m u
  later f fs m u b = record { written = suc b.written; shows = b.shows }

  write_value-Shows :
      (f : Field) (fs : List Field) (m : Values) (v : Option String) (rest : Action Store DbError ℕ)
      → f.value ≡ v
      → Triple
          (OnTables (Shows t (step f m)))
          rest
          (λ _. OnTables (Shows t (overlay fs (step f m))))
          (OnTables (Begun t fs (step f m)))
      → Triple
          (OnTables (Shows t m))
          (write_value now f.key f.secret v rest)
          (λ _. OnTables (Shows t (overlay fs (step f m))))
          (OnTables (Begun t (f ∷ fs) m))
  write_value-Shows f fs m none rest e tr = record {
    at = λ s h.
        (Triple-weaken tr (λ _ u k. k) (λ u k. record { holds = later f fs m _ k.holds })).at s
          (record { holds = subst (λ x. Shows t x s.tables) (step-eq-none f m e) h.holds });
  }
  write_value-Shows f fs m (some v) rest e tr =
      let first_write =
        subst
          (λ x.
            Triple (OnTables (Shows t m)) (upsert now f.key v f.secret)
              (λ (_ : Unit {0}). OnTables (Shows t x)) (OnTables (Shows t m)))
          (updated-eq-step f v m e) (upsert-Shows f.key v f.secret m) in
      Triple-bind (λ _. OnTables (Shows t (step f m))) _ _
        (Triple-weaken first_write (λ _ u k. k)
          (λ u k. record { holds = record { written = 0; shows = k.holds } }))
        λ _.
          Triple-bind (λ _. OnTables (Shows t (overlay fs (step f m)))) _ _
            (Triple-weaken tr (λ _ u k. k) (λ u k. record { holds = later f fs m _ k.holds }))
            λ n. Triple-pure (suc n) (λ u k. k)

  -- Writing the fields makes the stored map the old one with the fields of the request over it; a
  -- failure leaves the first of them written.
  pub write_fields-Shows :
      (fs : List Field) (m : Values)
      → Triple
          (OnTables (Shows t m))
          (write_fields now fs)
          (λ _. OnTables (Shows t (overlay fs m)))
          (OnTables (Begun t fs m))
  unfolding write_fields
  write_fields-Shows [] m = Triple-pure 0 (λ u k. k)
  write_fields-Shows (f ∷ fs) m =
      write_value-Shows f fs m f.value (write_fields now fs) refl (write_fields-Shows fs (step f m))
