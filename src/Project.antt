-- ===== src/Project.antt =====
-- internal/project/client.go: the client of the tenant API. `net/http` and the encoding of paths are
-- a parameter, and a payload is the value that is encoded.
pub mod World
pub mod Reads
pub mod Usage
use Prim.Native.String
use osspilot_ops_api.Common.{
  ℕ, eqb, ltb, leb, String, Bool, true, false, not, ◌&&◌, ◌||◌, Option, none, some, List, [], ◌∷◌,
  ◌==◌, if◌then◌else◌,
}
use osspilot_ops_api.Common.Int.{ℤ}
use osspilot_ops_api.Common.Text.{trim_space, trim_right}
use osspilot_ops_api.Action.{Result, ok, err, Action, ◌>>=◌, ◌>>◌, pure, stop}

pub record Account : Type 0 where
  pub username : String
  pub password_hash : String
  pub display_name : Option String
  pub email : Option String
  pub phone : Option String
  pub status : String
  pub must_change_password : Option Bool
  pub quota_bytes : Option ℤ
  pub object_limit : Option ℤ
  pub daily_upload_bytes : Option ℤ
  pub storage_region_id : Option ℕ
  pub storage_region_code : Option String
  pub storage_region_name : Option String
  pub s3_endpoint : Option String
  pub s3_region_name : Option String

pub record BucketItem : Type 0 where
  pub bucket_name : String
  pub display_name : Option String

pub record AlertEvent : Type 0 where
  pub username : String
  pub fingerprint : String
  pub rule_type : String
  pub severity : String
  pub status : String
  pub title : String
  pub message : String
  pub bucket_name : Option String
  pub fired_at : Option ℕ
  pub resolved : Bool

pub data Payload : Type 0 where
  nothing : Payload
  account : Account → Payload
  buckets : List BucketItem → Payload
  alert : AlertEvent → Payload
  settings : List (String × String) → Payload
  lock : String → String → Payload
  empty_object : Payload
  -- `map[string]any{}` with the note, where there is one
  note : Option String → Payload
  -- A body that is passed on, with its content type
  body_of : String → String → Payload

pub record Call : Type 0 where
  pub method : String
  pub url : String
  pub authorization : String
  pub payload : Payload

-- `excerpt` is the first 2048 bytes of the body, `capped` the first 8 MiB.
pub record Reply : Type 0 where
  pub status : ℕ
  pub body : String
  pub excerpt : String
  pub capped : String
  pub content_type : String

-- `net/http`, `url.PathEscape`, `url.QueryEscape`, the field `detail` of a JSON text, and `http.StatusText`
pub record Network (R : Type 0) : Type 0 where
  pub exchange : Call → R → Option Reply × R
  pub escape : String → String
  pub query_escape : String → String
  pub detail : String → Option String
  pub status_text : ℕ → String

pub record Client : Type 0 where
  pub base : String
  pub secret : String

pub data CallError : Type 0 where
  http_error : ℕ → String → CallError
  failed : CallError

is_slash : ℕ → Bool
is_slash c = eqb c b'/'

-- `New`
unfoldable pub new_client : String → String → Option Client
unfolding is_slash trim_space trim_right
new_client base secret =
    let base = trim_right is_slash (trim_space base) in
    if base == "" || secret == "" then none else some (record { base = base; secret = secret })

module _ {R : Type 0} (net : Network R) where
  -- `detailFromBody`
  unfoldable pub detail_from_body : String → ℕ → String
  unfolding trim_space
  detail_from_body body status =
      let text = trim_space body in
      let plain = if text == "" then net.status_text status else text in
      elim (net.detail body) [ none ↦ plain | some d ↦ if d == "" then plain else d ]

  module _ {D : Type 0} (decode : String → Option D) where
    -- The end of `doJSON`, after the exchange
    unfoldable pub read_reply : Option Reply → Result CallError D
    unfolding detail_from_body
    read_reply none = err failed
    read_reply (some reply) =
        if leb 200 reply.status && ltb reply.status 300
        then (elim (decode reply.body) [ none ↦ err failed | some d ↦ ok d ])
        else err (http_error reply.status (detail_from_body reply.excerpt reply.status))

    -- `doJSON`
    unfoldable pub do_json : Client → String → String → Payload → Action R CallError D
    unfolding read_reply
    do_json c method path payload r =
        let answer =
          net.exchange
            (record {
              method = method;
              url = String.◌++◌ c.base path;
              authorization = String.◌++◌ "Bearer " c.secret;
              payload = payload;
            })
            r in
        (read_reply answer.0, answer.1)

  -- `do`: no destination, so the body is not read.
  unfoldable pub do_call : Client → String → String → Payload → Action R CallError Unit
  unfolding do_json
  do_call = do_json (λ body. some tt)

  abbrev pub account_path : String → String
  account_path username = String.◌++◌ "/internal/accounts/" (net.escape username)

  -- A nil client does nothing.
  -- `UpsertAccount`
  unfoldable pub upsert_account : Option Client → Account → Action R CallError Unit
  upsert_account none a = pure tt
  upsert_account (some c) a = do_call c "PUT" (account_path a.username) (account a)

  -- `DeleteAccount`
  unfoldable pub delete_account : Option Client → String → Action R CallError Unit
  delete_account none username = pure tt
  delete_account (some c) username = do_call c "DELETE" (account_path username) nothing

  -- `ReplaceBuckets`
  unfoldable pub replace_buckets :
      Option Client → String → List BucketItem → Action R CallError Unit
  replace_buckets none username items = pure tt
  replace_buckets (some c) username items =
      do_call c "PUT" (String.◌++◌ (account_path username) "/buckets") (buckets items)

  -- `PutAlert`
  unfoldable pub put_alert : Option Client → AlertEvent → Action R CallError Unit
  put_alert none event = pure tt
  put_alert (some c) event = do_call c "PUT" "/internal/alerts/events" (alert event)

  -- `PutSettings`
  unfoldable pub put_settings : Option Client → List (String × String) → Action R CallError Unit
  put_settings none values = pure tt
  put_settings (some c) values = do_call c "PUT" "/internal/settings" (settings values)

  -- `ForceUnlock`, where `decode` reads the field `unlocked`
  unfoldable pub force_unlock :
      (String → Option Bool) → Option Client → String → String → Action R CallError Bool
  unfolding do_json
  force_unlock decode none bucket key = stop (http_error 503 "tenant projection is not configured")
  force_unlock decode (some c) bucket key =
      do_json decode c "POST" "/internal/file-locks/force-unlock" (lock bucket key)

  -- `EnqueueInventory`, where `decode` reads the field `job_id`: a nil client is a nil pointer, as
  -- its callers test.
  unfoldable pub enqueue_inventory :
      (String → Option String) → Client → String → Action R CallError String
  unfolding do_json
  enqueue_inventory decode c bucket =
      do_json decode c "POST"
        (String.◌++◌ "/internal/buckets/" (String.◌++◌ (net.escape bucket) "/inventory"))
        empty_object
