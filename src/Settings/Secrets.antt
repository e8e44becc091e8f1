-- ===== src/Settings/Secrets.antt =====
-- The secret key of the gateway, which internal/settings stores and never shows.
use osspilot_ops_api.Common.{
  String, ◌≡◌, ◌≢◌, refl, sym, ap, ◌∙◌, false, not, Option, none, some, List, arith, ◌==◌, inl, inr,
  Bool-cases, eq_iff,
}
use osspilot_ops_api.Common.Text.{trim_space}
use osspilot_ops_api.Action.{ok}
use osspilot_ops_api.Action.Triple.{Post-ok}
use osspilot_ops_api.Http.{Response}
use osspilot_ops_api.Schema.{Tables}
use osspilot_ops_api.Schema.Settings.{SettingRow}
use osspilot_ops_api.Auth.{Request}
use osspilot_ops_api.Auth.Accounts.{User}
use osspilot_ops_api.Project.World.{World}
use osspilot_ops_api.Settings.{SettingsHandler, put}
use osspilot_ops_api.Settings.Rows.{Fallbacks, pick, pick_ptr, pick_int, pick_bool, latest}
use osspilot_ops_api.Settings.Valid.{UpdateSettings}
use osspilot_ops_api.Settings.Public.{PublicSettings, public_of, mask_secret}
use osspilot_ops_api.Settings.Fields.{fields, unmasked}
use osspilot_ops_api.Settings.Values.{Values, view}
use osspilot_ops_api.Settings.Saving.{Saved, put_effect}

-- Rows that differ at most in the secret key
pub record SameButSecret (rows others : List SettingRow) : Type 0 where
  pub values : (key : String) → (key == "rgw_secret_key") ≡ false → view rows key ≡ view others key
  pub times : latest rows ≡ latest others

mask_secret-eq : (s t : String) → s ≢ "" → t ≢ "" → mask_secret s ≡ mask_secret t
unfolding mask_secret
mask_secret-eq s t hs ht = ground (arith, eq_iff s "", eq_iff t "", hs, ht)

configured : (s t : String) → s ≢ "" → t ≢ "" → not (s == "") ≡ not (t == "")
configured s t hs ht = ground (arith, eq_iff s "", eq_iff t "", hs, ht)

module _ (to_lower : String → String) (fb : Fallbacks) (rows others : List SettingRow) where
  -- Rows that differ in nothing but the secret key, where both have one that is not blank, are shown
  -- alike: what `public` answers tells nothing of the secret key but that it is set.
  pub public_of_hides :
      SameButSecret rows others
      → pick rows "rgw_secret_key" fb.rgw_secret_key ≢ ""
      → pick others "rgw_secret_key" fb.rgw_secret_key ≢ ""
      → public_of to_lower fb rows ≡ public_of to_lower fb others
  unfolding public_of pick pick_ptr pick_int pick_bool
  public_of_hides same set set' =
      let at = λ (key : String) (e : (key == "rgw_secret_key") ≡ false). same.values key e in
      rw
        (
          mask_secret-eq _ _ set set',
          configured _ _ set set',
          same.times,
          at "s3_endpoint" refl,
          at "rgw_access_key" refl,
          at "default_upload_presign_expires" refl,
          at "default_download_presign_expires" refl,
          at "max_upload_bytes" refl,
          at "audit_enabled" refl,
          at "office_url" refl,
          at "download_cdn_url" refl,
          at "preview_cdn_url" refl,
          at "object_http_domain" refl,
          at "object_https_domain" refl,
          at "ceph_mgmt_api_url" refl,
          at "tenant_login_logo_text" refl,
          at "tenant_login_title" refl,
          at "tenant_login_subtitle" refl,
          at "trash_retention_days" refl,
          at "trash_cleanup_enabled" refl,
          at "lifecycle_cleanup_enabled" refl,
          at "version_retention_days" refl,
          at "version_cleanup_enabled" refl,
          at "multipart_stale_days" refl,
          at "multipart_cleanup_enabled" refl,
        )
        refl

unmasked-mask_secret : (s : String) → unmasked (mask_secret s) ≡ none
unfolding mask_secret trim_space
unmasked-mask_secret s = elim (Bool-cases (s == "")) [
  | inl empty ↦ rw empty refl
  | inr set ↦ rw set refl
]

same_secret : (a b : UpdateSettings) → some a ≡ some b → a.rgw_secret_key ≡ b.rgw_secret_key
same_secret a b e = ap secret_of e
  where
    secret_of : Option UpdateSettings → Option String
    secret_of none = none
    secret_of (some x) = x.rgw_secret_key

module _ {R : Type 0} (h : SettingsHandler R) (t : Tables) (r : Request UpdateSettings)
    (user : Option User) where
  Saved-secret :
      (a : Response PublicSettings) (u : Tables) (req : UpdateSettings) (fb : Fallbacks)
      → Saved h t r user a u
      → r.body ≡ some req
      → req.rgw_secret_key ≡ (public_of h.to_lower fb t.settings).rgw_secret_key
      → view u.settings "rgw_secret_key" ≡ view t.settings "rgw_secret_key"
  unfolding fields public_of
  Saved-secret a u req fb s body sent =
      let same : s.req.rgw_secret_key ≡ req.rgw_secret_key =
        same_secret s.req req (sym s.accepted.body ∙ body) in
      let nothing = unmasked-mask_secret (pick t.settings "rgw_secret_key" fb.rgw_secret_key) in
      ap (λ (m : Values). m "rgw_secret_key") s.shows.values ∙ rw same (rw sent (rw nothing refl))

  -- A request to `put` that sends back the secret key as `public` shows it leaves the stored secret
  -- key as it is, where `put` answers without an error.
  pub put_keeps_secret :
      (w : World R) (a : Response PublicSettings) (req : UpdateSettings) (fb : Fallbacks)
      → w.db.tables ≡ t
      → r.body ≡ some req
      → req.rgw_secret_key ≡ (public_of h.to_lower fb t.settings).rgw_secret_key
      → (put h r user w).0 ≡ ok a
      → view (put h r user w).1.db.tables.settings "rgw_secret_key"
        ≡ view t.settings "rgw_secret_key"
  put_keeps_secret w a req fb e body sent done =
      Saved-secret a _ req fb
        (Post-ok _ _ (put h r user w) a (put_effect h t r user w e) done).holds.holds body sent
