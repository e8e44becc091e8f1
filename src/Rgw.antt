-- ===== src/Rgw.antt =====
-- internal/rgw/client.go: the S3 client. The AWS SDK is a parameter: each call answers a value or the
-- text of an error, and `R` is the state of the world behind the network.
use osspilot_ops_api.Common.{
  ℕ, eqb, ltb, String, Bool, false, ◌||◌, Option, none, some, List, [], ◌∷◌, ◌==◌, if◌then◌else◌,
}
use osspilot_ops_api.Common.Int.{ℤ, pos, negsuc}
use osspilot_ops_api.Common.Text.{trim_space, trim_right, contains}
use osspilot_ops_api.Action.{Result, ok, err, Action, ◌>>=◌, pure, stop}

-- What `New` configures
pub record Client : Type 0 where
  pub endpoint : String
  pub access_key : String
  pub secret_key : String

is_slash : ℕ → Bool
is_slash c = eqb c b'/'

-- `New`; the region and the path style are constants of the configuration.
unfoldable pub new_client : String → String → String → Option Client
unfolding is_slash trim_space trim_right
new_client endpoint access_key secret_key =
    let base = trim_right is_slash (trim_space endpoint) in
    if base == "" || access_key == "" || secret_key == ""
    then none
    else some (record { endpoint = base; access_key = access_key; secret_key = secret_key })

-- Items of the listings as the SDK answers them, where each pointer may be nil
pub record RawBucket : Type 0 where
  pub name : Option String
  pub creation_date : Option ℕ

pub record RawObject : Type 0 where
  pub key : Option String
  pub last_modified : Option ℕ
  pub size : Option ℤ

pub record RawUpload : Type 0 where
  pub key : Option String
  pub upload_id : Option String
  pub initiated : Option ℕ

pub record RawObjects : Type 0 where
  pub contents : List RawObject
  pub next_token : Option String
  pub is_truncated : Option Bool

pub record RawUploads : Type 0 where
  pub uploads : List RawUpload
  pub next_key : Option String
  pub next_upload : Option String
  pub is_truncated : Option Bool

-- The functions of the SDK that the code calls, and `encoding/json` of a policy
pub record Sdk (R P : Type 0) : Type 0 where
  pub head_bucket : Client → String → Action R String Unit
  pub list_buckets : Client → Action R String (List RawBucket)
  pub get_policy : Client → String → Action R String (Option String)
  pub put_policy : Client → String → String → Action R String Unit
  pub delete_policy : Client → String → Action R String Unit
  -- The bucket, the prefix, the most keys, and the token where there is one
  pub list_objects : Client → String → String → ℤ → Option String → Action R String RawObjects
  pub delete_object : Client → String → String → Action R String Unit
  pub list_uploads :
      Client → String → String → Option String → Option String → Action R String RawUploads
  pub abort_upload : Client → String → String → String → Action R String Unit
  pub unmarshal : String → Result String P
  pub marshal : P → Result String String

pub record BucketInfo : Type 0 where
  pub name : String
  pub creation_date : Option ℕ

pub record ObjectInfo : Type 0 where
  pub key : String
  pub last_modified : Option ℕ
  pub size : ℤ

pub record MultipartInfo : Type 0 where
  pub key : String
  pub upload_id : String
  pub initiated : Option ℕ

-- `failed` has the text of the error.
pub data S3Error : Type 0 where
  no_bucket : S3Error
  failed : String → S3Error

-- The errors of `HeadBucket`
unfoldable pub head_error : String → S3Error
unfolding contains
head_error text =
    if contains text "NotFound" || contains text "NoSuchBucket" then no_bucket else failed text

abbrev pub relabel : {A : Type 0} → (String → S3Error) → Result String A → Result S3Error A
relabel f (ok a) = ok a
relabel f (err e) = err (f e)

abbrev pub labelled : {R A : Type 0} → (String → S3Error) → Action R String A → Action R S3Error A
labelled f m r = (relabel f (m r).0, (m r).1)

abbrev with_name : Option String → Option ℕ → List BucketInfo → List BucketInfo
with_name none created rest = rest
with_name (some name) created rest = record { name = name; creation_date = created } ∷ rest

-- The loop of `ListBuckets`, which drops what has no name
unfoldable pub named_buckets : List RawBucket → List BucketInfo
named_buckets [] = []
named_buckets (b ∷ bs) = let rest = named_buckets bs in with_name b.name b.creation_date rest

abbrev or_zero : Option ℤ → ℤ
or_zero none = pos 0
or_zero (some n) = n

abbrev with_key : Option String → RawObject → List ObjectInfo → List ObjectInfo
with_key none o rest = rest
with_key (some key) o rest =
    record { key = key; last_modified = o.last_modified; size = or_zero o.size } ∷ rest

-- The loop of `ListObjects`
unfoldable pub keyed_objects : List RawObject → List ObjectInfo
keyed_objects [] = []
keyed_objects (o ∷ os) = let rest = keyed_objects os in with_key o.key o rest

abbrev with_ids : Option String → Option String → Option ℕ → List MultipartInfo → List MultipartInfo
with_ids (some key) (some id) at rest = record { key = key; upload_id = id; initiated = at } ∷ rest
with_ids (some key) none at rest = rest
with_ids none id at rest = rest

-- The loop of `ListMultipart`
unfoldable pub full_uploads : List RawUpload → List MultipartInfo
full_uploads [] = []
full_uploads (u ∷ us) = let rest = full_uploads us in with_ids u.key u.upload_id u.initiated rest

abbrev or_empty : Option String → String
or_empty none = ""
or_empty (some s) = s

abbrev or_false : Option Bool → Bool
or_false none = false
or_false (some b) = b

abbrev unless_empty : String → Option String
unless_empty s = if s == "" then none else some s

-- `if maxKeys <= 0 { maxKeys = 1000 }`
abbrev pub max_keys : ℤ → ℤ
max_keys (pos n) = if ltb 0 n then pos n else pos 1000
max_keys (negsuc n) = pos 1000

module _ {R P : Type 0} (sdk : Sdk R P) (c : Client) where
  -- `HeadBucket`
  unfoldable pub head_bucket : String → Action R S3Error Unit
  head_bucket bucket = labelled head_error (sdk.head_bucket c bucket)

  -- `ListBuckets`
  unfoldable pub list_buckets : Action R S3Error (List BucketInfo)
  list_buckets = do found ← labelled failed (sdk.list_buckets c); pure (named_buckets found)

  abbrev read_policy : Option String → Action R S3Error (Option P)
  read_policy none = pure none
  read_policy (some text) = if text == "" then pure none else (λ r. elim (sdk.unmarshal text) [
    | ok p ↦ (ok (some p), r)
    | err e ↦ (err (failed e), r)
  ])

  -- The error that RGW answers where there is no policy
  abbrev no_policy : Result String (Option String) → Result S3Error (Option String)
  no_policy (ok o) = ok o
  no_policy (err e) = if contains e "NoSuchBucketPolicy" then ok none else err (failed e)

  abbrev policy_text : String → Action R S3Error (Option String)
  policy_text bucket r = (no_policy (sdk.get_policy c bucket r).0, (sdk.get_policy c bucket r).1)

  -- `GetBucketPolicy`
  unfoldable pub get_policy : String → Action R S3Error (Option P)
  unfolding contains
  get_policy bucket = do text ← policy_text bucket; read_policy text

  abbrev put_text : String → Result String String → Action R S3Error Unit
  put_text bucket (err e) = stop (failed e)
  put_text bucket (ok text) = labelled failed (sdk.put_policy c bucket text)

  -- `PutBucketPolicy`
  unfoldable pub put_policy : String → P → Action R S3Error Unit
  put_policy bucket policy = put_text bucket (sdk.marshal policy)

  -- `DeleteBucketPolicy`
  unfoldable pub delete_policy : String → Action R S3Error Unit
  delete_policy bucket = labelled failed (sdk.delete_policy c bucket)

  -- `ListObjects`
  unfoldable pub list_objects :
      String → String → String → ℤ → Action R S3Error (List ObjectInfo × String × Bool)
  list_objects bucket prefix token most = do
    out ← labelled failed (sdk.list_objects c bucket prefix (max_keys most) (unless_empty token))
    pure (keyed_objects out.contents, or_empty out.next_token, or_false out.is_truncated)

  -- `DeleteObject`
  unfoldable pub delete_object : String → String → Action R S3Error Unit
  delete_object bucket key = labelled failed (sdk.delete_object c bucket key)

  -- `ListMultipart`
  unfoldable pub list_multipart :
      String
      → String
      → String
      → String
      → Action R S3Error (List MultipartInfo × String × String × Bool)
  list_multipart bucket prefix key_marker upload_marker = do
    out ←
        labelled failed
          (sdk.list_uploads c bucket prefix (unless_empty key_marker) (unless_empty upload_marker))
    pure (
      full_uploads out.uploads,
      or_empty out.next_key,
      or_empty out.next_upload,
      or_false out.is_truncated,
    )

  -- `AbortMultipart`
  unfoldable pub abort_multipart : String → String → String → Action R S3Error Unit
  abort_multipart bucket key upload_id = labelled failed (sdk.abort_upload c bucket key upload_id)
