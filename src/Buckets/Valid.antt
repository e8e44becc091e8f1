-- ===== src/Buckets/Valid.antt =====
-- The names of the buckets that internal/buckets stores, and the outcomes of an import.
pub mod Counts
use osspilot_ops_api.Common.{String, ◌≡◌, Option, none, some, List, [], ◌∷◌, if◌then◌else◌}
use osspilot_ops_api.Common.Int.{ℤ}
use osspilot_ops_api.Common.Text.{trim_space}
use osspilot_ops_api.Action.{Result, ok, err, ◌>>=◌, ◌>>◌}
use osspilot_ops_api.Action.Keeps.{
  Keeps, Keeps-pure, Keeps-stop, Keeps-attempt, Keeps-bind, keeps_rules,
}
use osspilot_ops_api.Http.{Exit, panic}
use osspilot_ops_api.Http.Keeps.{Keeps-refuse}
use osspilot_ops_api.Schema.{Tables}
use osspilot_ops_api.Auth.{Request}
use osspilot_ops_api.Auth.Accounts.{User}
use osspilot_ops_api.Project.World.{World}
use osspilot_ops_api.Project.World.Keeps.{OnDb}
use osspilot_ops_api.Buckets.Rows.{Bucket}
use osspilot_ops_api.Buckets.Live.{
  BucketsHandler, RegError, conflict, storage_error, missing, bad_name, database_error,
  unconfigured, no_region, inactive,
}
use osspilot_ops_api.Buckets.Register.Valid.{NamesValid, Valid, register-Valid}
use osspilot_ops_api.Buckets.{
  CreateBucket, ImportBuckets, BucketBody, registered, create, sorted_out, place, import_each,
  import_batch, write_reg_err,
}

module _ {R P : Type 0} (h : BucketsHandler R P) where
  write_reg_err-Valid :
      {A : Type 0} (e : RegError)
      → Keeps {E = Exit BucketBody} {A = A} (OnDb {R = R} Valid) (write_reg_err e)
  write_reg_err-Valid conflict = Keeps-refuse _ _
  write_reg_err-Valid database_error = Keeps-refuse _ _
  write_reg_err-Valid unconfigured = Keeps-refuse _ _
  write_reg_err-Valid storage_error = Keeps-refuse _ _
  write_reg_err-Valid no_region = Keeps-refuse _ _
  write_reg_err-Valid inactive = Keeps-refuse _ _
  write_reg_err-Valid (missing name) = Keeps-refuse _ _
  write_reg_err-Valid (bad_name text) = Keeps-refuse _ _

  registered-Valid : (o : Result RegError (Option Bucket)) → Keeps (OnDb Valid) (registered h o)
  registered-Valid (ok none) = Keeps-stop panic
  registered-Valid (ok (some b)) = Keeps-pure _
  registered-Valid (err e) = write_reg_err-Valid e

  create-Valid :
      (r : Request CreateBucket) (user : Option User) → Keeps (OnDb Valid) (create h r user)
  unfolding create
  create-Valid r user = search (keeps_rules, register-Valid, registered-Valid) depth 20

  sorted_out-Valid :
      (name : String) (o : Result RegError (Option Bucket))
      → Keeps (OnDb Valid) (sorted_out h name o)
  sorted_out-Valid name (ok none) = Keeps-stop panic
  sorted_out-Valid name (ok (some b)) = Keeps-pure _
  sorted_out-Valid name (err e) = Keeps-pure _

  import_each-Valid :
      (r : Request ImportBuckets) (user : Option User) (region : Option ℤ) (names : List String)
      → Keeps (OnDb Valid) (import_each h r user region names)
  unfolding import_each
  import_each-Valid r user region [] = Keeps-pure _
  import_each-Valid r user region (raw ∷ names) =
      Keeps-bind _ _
        (Keeps-attempt _
          (register-Valid h r.origin r.now user (trim_space raw) none region none none))
        λ outcome. Keeps-bind _ _ (sorted_out-Valid (trim_space raw) outcome) λ here.
          Keeps-bind _ _ (import_each-Valid r user region names)
            λ others. Keeps-pure (place here others)

  import_batch-Valid :
      (r : Request ImportBuckets) (user : Option User) → Keeps (OnDb Valid) (import_batch h r user)
  unfolding import_batch
  import_batch-Valid r user = search (keeps_rules, import_each-Valid) depth 20

-- Requests to `create` and `importBatch` one after the other, before each of which faults may be set
-- and the world outside may change
pub data Registers (R P : Type 0) (start : Tables) : Tables → Type 0 where
  no_requests : Registers R P start start
  then_create :
      {t u : Tables} (h : BucketsHandler R P) (r : Request CreateBucket) (user : Option User)
      (w : World R)
      → Registers R P start t
      → w.db.tables ≡ t
      → u ≡ (create h r user w).1.db.tables
      → Registers R P start u
  then_import :
      {t u : Tables} (h : BucketsHandler R P) (r : Request ImportBuckets) (user : Option User)
      (w : World R)
      → Registers R P start t
      → w.db.tables ≡ t
      → u ≡ (import_batch h r user w).1.db.tables
      → Registers R P start u

held : {R : Type 0} {t : Tables} (w : World R) → w.db.tables ≡ t → NamesValid t → OnDb Valid w
held w e k = record { holds = record { holds = rw e k } }

-- Whatever requests to `create` and `importBatch` arrive, whatever faults occur in them and whatever S3
-- and the tenant API answer: where every stored bucket has a name that `validateName` lets through, it
-- is so afterwards.
pub Registers-NamesValid :
    {R P : Type 0} {t u : Tables} → Registers R P t u → NamesValid t → NamesValid u
Registers-NamesValid no_requests k = k
Registers-NamesValid (then_create h r user w before e q) k =
    rw q ((create-Valid h r user).at w (held w e (Registers-NamesValid before k))).holds.holds
Registers-NamesValid (then_import h r user w before e q) k =
    rw q ((import_batch-Valid h r user).at w (held w e (Registers-NamesValid before k))).holds.holds
