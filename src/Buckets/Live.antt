-- ===== src/Buckets/Live.antt =====
-- internal/buckets/handler.go: the handler, the errors of `register`, and the S3 client of the settings.
use Prim.Native.String
use osspilot_ops_api.Common.{String, Bool, Option, none, some, List}
use osspilot_ops_api.Action.{Result, ok, err, Action, attempt, ◌>>=◌, stop, require}
use osspilot_ops_api.Schema.{Store}
use osspilot_ops_api.Database.{DbError}
use osspilot_ops_api.Project.{Network, Client}
use osspilot_ops_api.Project.Usage.{UsageBucket}
use osspilot_ops_api.Rgw as Rgw
use osspilot_ops_api.Settings.{SettingsHandler, Runtime, runtime}

-- `buckets.Handler`: which stores it has, the handler of the settings, its client of the tenant API, and
-- the libraries
pub record BucketsHandler (R P : Type 0) : Type 0 where
  pub store : Bool
  pub regions : Bool
  pub log : Bool
  pub settings : Option (SettingsHandler R)
  pub project : Option Client
  pub net : Network R
  pub sdk : Rgw.Sdk R P
  pub decode_job : String → Option String
  pub decode_usage : String → Option (List UsageBucket)
  -- The order of texts in the database
  pub collate : String → String → Bool
  -- `strings.EqualFold`
  pub equal_fold : String → String → Bool

-- The errors of `register`
pub data RegError : Type 0 where
  conflict database_error unconfigured storage_error no_region inactive : RegError
  missing : String → RegError
  bad_name : String → RegError

-- Their texts
abbrev pub reg_text : RegError → String
reg_text conflict = "bucket exists"
reg_text database_error = "database error"
reg_text unconfigured = "S3/RGW is not configured"
reg_text storage_error = "storage error"
reg_text no_region = "Storage region not found"
reg_text inactive = "Storage region is not active"
reg_text (missing name) = String.◌++◌ "S3 bucket '" (String.◌++◌ name "' not found")
reg_text (bad_name text) = text

module _ {R P : Type 0} (h : BucketsHandler R P) where
  abbrev pub connect : Result DbError Runtime → Action Store RegError Rgw.Client
  connect (err e) = stop database_error
  connect (ok rt) =
      require unconfigured (Rgw.new_client rt.s3_endpoint rt.rgw_access_key rt.rgw_secret_key)

  abbrev pub live_with : Option (SettingsHandler R) → Action Store RegError Rgw.Client
  live_with none = stop unconfigured
  live_with (some s) = do rt ← attempt (runtime s); connect rt

  -- `liveS3`
  unfoldable pub live_s3 : Action Store RegError Rgw.Client
  live_s3 = live_with h.settings
