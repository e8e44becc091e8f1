-- ===== src/Buckets/Register/Valid.antt =====
-- `register` of internal/buckets keeps the names of the stored buckets valid.
use osspilot_ops_api.Common.{
  ℕ, String, ◌≡◌, refl, Bool, true, false, not, Option, none, some, [], ◌∷◌, any, All, All-append,
  ◌==◌, if◌then◌else◌,
}
use osspilot_ops_api.Common.Int.{ℤ, pos, negsuc}
use osspilot_ops_api.Action.{Result, ok, err}
use osspilot_ops_api.Action.Keeps.{
  Keeps, Returns, Keeps-pure, Keeps-stop, Keeps-require, Keeps-if, Keeps-attempt, Keeps-bind,
  Keeps-bind_post, Returns-bind, keeps_rules,
}
use osspilot_ops_api.Database.{DbError, exec, no_rows, unique_violation, broken}
use osspilot_ops_api.Database.Keeps.{OnTables, Keeps-exec, Keeps-query}
use osspilot_ops_api.Schema.{Tables, Store}
use osspilot_ops_api.Schema.Tenants.{BucketRow}
use osspilot_ops_api.Auth.Accounts.{User}
use osspilot_ops_api.Audit.{Origin}
use osspilot_ops_api.Audit.Keeps.{insert_entry-Keeps}
use osspilot_ops_api.Regions.Rows.{Region, get_region}
use osspilot_ops_api.Project.{Client}
use osspilot_ops_api.Project.World.{on_db}
use osspilot_ops_api.Project.World.Keeps.{OnDb, Keeps-on_db, Keeps-on_remote, Returns-on_db}
use osspilot_ops_api.Rgw as Rgw
use osspilot_ops_api.Settings.{SettingsHandler, Runtime}
use osspilot_ops_api.Settings.Put.{runtime-Keeps}
use osspilot_ops_api.Buckets.Rows.{
  Bucket, get_bucket, insert_bucket, insert_bucket_row, bucket_fits, region_exists, add_bucket,
}
use osspilot_ops_api.Buckets.Names.{validate_name}
use osspilot_ops_api.Buckets.Live.{BucketsHandler, connect, live_with, live_s3}
use osspilot_ops_api.Buckets.Register.{
  new_bucket, audit_register, audit_by, check_region, region_at, check_found, valid_or_stop,
  after_head, after_insert, enqueue_for, open_register, register,
}

-- Every registered bucket has a name that `validateName` lets through.
pub record NamesValid (t : Tables) : Type 0 where
  pub all : All (λ (b : BucketRow). validate_name b.bucket_name ≡ none) t.tenants.buckets

abbrev pub Valid : Store → Type 0
Valid = OnTables NamesValid

if-NamesValid :
    {A : Type 0} (test : Bool) (p q : Result DbError A × Tables)
    → NamesValid p.1
    → NamesValid q.1
    → NamesValid (if test then p else q).1
if-NamesValid true p q h k = h
if-NamesValid false p q h k = k

insert_bucket_row-NamesValid :
    (row : ℕ → BucketRow)
    → ((id : ℕ) → validate_name (row id).bucket_name ≡ none)
    → (t : Tables) → NamesValid t
    → NamesValid (insert_bucket_row row t).1
unfolding insert_bucket_row
insert_bucket_row-NamesValid row valid t h =
    let b : BucketRow = row t.tenants.next_bucket_id in
    let added : NamesValid (add_bucket b t) = record {
      all =
          All-append (λ (x : BucketRow). validate_name x.bucket_name ≡ none) t.tenants.buckets
            (b ∷ []) h.all (valid t.tenants.next_bucket_id, tt);
    } in
    if-NamesValid (not (bucket_fits b)) _ _ h (
      if-NamesValid (any (λ x. x.bucket_name == b.bucket_name) t.tenants.buckets) _ _ h
        (if-NamesValid (region_exists t b.storage_region_id) _ _ added h))

module _ {R P : Type 0} (h : BucketsHandler R P) where
  live_with-Valid : (s : Option (SettingsHandler R)) → Keeps Valid (live_with h s)
  live_with-Valid none = Keeps-stop _
  live_with-Valid (some s) = Keeps-bind _ _ (Keeps-attempt _ (runtime-Keeps s)) connect-Valid
    where
      connect-Valid : (rt : Result DbError Runtime) → Keeps Valid (connect h rt)
      connect-Valid (err e) = Keeps-stop _
      connect-Valid (ok rt) = Keeps-require _ _

  module _ (origin : Origin) (now : ℕ) (user : Option User) where
    audit_by-Valid :
        (u : Option User) (name status message : String)
        → Keeps Valid (audit_by h origin now user u name status message)
    audit_by-Valid none name status message = Keeps-pure tt
    audit_by-Valid (some u) name status message =
        Keeps-if h.log _ _
          (search (keeps_rules, insert_entry-Keeps NamesValid (λ t logs k. record { all = k.all }))
            depth 10)
          (Keeps-pure tt)

    audit_register-Valid :
        (name status message : String)
        → Keeps Valid (audit_register h origin now user name status message)
    unfolding audit_register
    audit_register-Valid = audit_by-Valid user

    region_at-Valid : (id : ℤ) → Keeps Valid (region_at id)
    unfolding get_region
    region_at-Valid (pos n) = Keeps-query _
    region_at-Valid (negsuc n) = Keeps-query _

    check_found-Valid : (o : Result DbError (Option Region)) → Keeps Valid (check_found o)
    check_found-Valid (err e) = Keeps-stop _
    check_found-Valid (ok none) = Keeps-stop _
    check_found-Valid (ok (some reg)) =
        Keeps-if (reg.row.status == "active") _ _ (Keeps-pure tt) (Keeps-stop _)

    check_region-Valid : (id : Option ℤ) → Keeps Valid (check_region h origin now user id)
    unfolding check_region
    check_region-Valid none = Keeps-pure tt
    check_region-Valid (some id) =
        Keeps-bind _ _ (Keeps-if h.regions _ _ (Keeps-pure tt) (Keeps-stop _))
          λ _. Keeps-bind _ _ (Keeps-attempt _ (region_at-Valid id)) check_found-Valid

    after_head-Valid :
        (name : String) (o : Result Rgw.S3Error Unit)
        → Keeps Valid (after_head h origin now user name o)
    unfolding after_head
    after_head-Valid name (ok a) = Keeps-pure tt
    after_head-Valid name (err Rgw.no_bucket) = search (keeps_rules, audit_register-Valid) depth 10
    after_head-Valid name (err (Rgw.failed text)) =
        search (keeps_rules, audit_register-Valid) depth 10

    after_insert-Valid :
        (name : String) (o : Result DbError (Option Bucket))
        → Keeps Valid (after_insert h origin now user name o)
    unfolding after_insert
    after_insert-Valid name (ok b) = search (keeps_rules, audit_register-Valid) depth 10
    after_insert-Valid name (err unique_violation) =
        search (keeps_rules, audit_register-Valid) depth 10
    after_insert-Valid name (err no_rows) = Keeps-stop _
    after_insert-Valid name (err broken) = Keeps-stop _

    valid_or_stop-Keeps : (o : Option String) → Keeps Valid (valid_or_stop h origin now user o)
    valid_or_stop-Keeps none = Keeps-pure tt
    valid_or_stop-Keeps (some text) = Keeps-stop _

    valid_or_stop-none :
        (o : Option String)
        → Returns Valid (λ (_ : Unit {0}). o ≡ none) (valid_or_stop h origin now user o)
    valid_or_stop-none none = record { result = λ s k a e. refl }
    valid_or_stop-none (some text) = record { result = λ s k a e. cc }

    get_bucket-Valid : (id : ℕ) → Keeps Valid (get_bucket id)
    unfolding get_bucket
    get_bucket-Valid id = Keeps-query _

    insert_bucket-Valid :
        (name : String) (display : Option String) (region quota objects : Option ℤ)
        → validate_name name ≡ none
        → Keeps Valid (insert_bucket (new_bucket name display region quota objects now))
    unfolding insert_bucket
    insert_bucket-Valid name display region quota objects e =
        let row : ℕ → BucketRow = new_bucket name display region quota objects now in
        Keeps-bind (exec (insert_bucket_row row)) _
          (Keeps-exec (insert_bucket_row row) (insert_bucket_row-NamesValid row (λ id. e)))
          get_bucket-Valid

    enqueue_for-Valid :
        (c : Option Client) (name : String)
        → Keeps (OnDb Valid) (enqueue_for h origin now user c name)
    enqueue_for-Valid none name = Keeps-pure tt
    enqueue_for-Valid (some c) name = search (keeps_rules, Keeps-on_remote) depth 10

    open_register-checked :
        (name : String) (region : Option ℤ)
        → Returns Valid
            (λ _. validate_name name ≡ none)
            (open_register h origin now user name region)
    unfolding open_register
    open_register-checked name region =
        Returns-bind (λ _. validate_name name ≡ none) _ _ (valid_or_stop-Keeps _)
          (valid_or_stop-none _) λ _ e. record { result = λ s k a q. e }

    open_register-Valid :
        (name : String) (region : Option ℤ)
        → Keeps Valid (open_register h origin now user name region)
    unfolding open_register live_s3
    open_register-Valid name region =
        Keeps-bind _ _ (valid_or_stop-Keeps _)
          λ _. Keeps-bind _ _ (check_region-Valid region) λ _. live_with-Valid h.settings

    pub register-Valid :
        (name : String) (display : Option String) (region quota objects : Option ℤ)
        → Keeps (OnDb Valid) (register h origin now user name display region quota objects)
    unfolding register
    register-Valid name display region quota objects =
        Keeps-bind_post (λ _. validate_name name ≡ none)
          (on_db (open_register h origin now user name region)) _
          (Keeps-on_db _ (open_register-Valid name region))
          (Returns-on_db _ (open_register-checked name region))
          λ client valid.
            search
              (
                keeps_rules, Keeps-on_db, Keeps-on_remote, after_head-Valid, after_insert-Valid,
                insert_bucket-Valid, enqueue_for-Valid,
              )
              depth 30
