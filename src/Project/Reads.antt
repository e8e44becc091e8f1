-- ===== src/Project/Reads.antt =====
-- internal/project/client.go: the calls that answer items of the tenant API, and the calls that are
-- passed on. What `encoding/json` reads of a body is a parameter.
use Prim.Native.String
use osspilot_ops_api.Common.{ℕ, String, Option, none, some, List, [], ◌==◌, if◌then◌else◌}
use osspilot_ops_api.Common.Int.{ℤ}
use osspilot_ops_api.Action.{Result, ok, err, Action, ◌>>=◌, pure, stop}
use osspilot_ops_api.Project.{
  Network, Client, CallError, http_error, failed, Reply, Call, nothing, note, body_of, do_json,
}

-- The fields of type `any` are their JSON texts.
pub record AccessItem : Type 0 where
  pub id : ℤ
  pub account_id : ℤ
  pub account_name : String
  pub status : String
  pub requested_by : Option ℤ
  pub requested_at : String
  pub reviewed_by : Option ℤ
  pub reviewed_at : String
  pub review_note : Option String
  pub rgw_uid : Option String
  pub app_count : ℤ
  pub key_count : ℤ

-- What the code reads of a body: the field `items`, which may be missing, and an item
pub record AccessDecoder : Type 0 where
  pub items : String → Option (Option (List AccessItem))
  pub item : String → Option AccessItem

pub record RawResponse : Type 0 where
  pub status : ℕ
  pub content_type : String
  pub body : String

abbrev or_no_items : Option (List AccessItem) → List AccessItem
or_no_items none = []
or_no_items (some items) = items

module _ {R : Type 0} (net : Network R) where
  abbrev access_path : String → String
  access_path username = String.◌++◌ "/internal/api-access/" (net.escape username)

  module _ (decode : AccessDecoder) (c : Client) where
    -- `ListAccess`
    unfoldable pub list_access : String → Action R CallError (List AccessItem)
    unfolding do_json
    list_access status = do
      let query = if status == "" then "" else String.◌++◌ "?status=" (net.query_escape status)
      found ← do_json net decode.items c "GET" (String.◌++◌ "/internal/api-access" query) nothing
      pure (or_no_items found)

    -- `GetAccess`
    unfoldable pub get_access : String → Action R CallError AccessItem
    unfolding do_json
    get_access username = do_json net decode.item c "GET" (access_path username) nothing

    -- `ReviewAccess`
    unfoldable pub review_access : String → String → Option String → Action R CallError AccessItem
    unfolding do_json
    review_access username action text =
        do_json net decode.item c "POST"
          (String.◌++◌ (access_path username) (String.◌++◌ "/" action)) (note text)

  abbrev pub read_raw : Option Reply → Result CallError RawResponse
  read_raw none = err failed
  read_raw (some reply) =
      ok (record { status = reply.status; content_type = reply.content_type; body = reply.capped })

  abbrev pub raw_call : Client → String → String → String → String → Call
  raw_call c method path body content_type = record {
    method = method;
    url = String.◌++◌ c.base path;
    authorization = String.◌++◌ "Bearer " c.secret;
    payload = body_of body content_type;
  }

  abbrev send_raw : Call → Action R CallError RawResponse
  send_raw call r = let answer = net.exchange call r in (read_raw answer.0, answer.1)

  -- `DoRaw`
  unfoldable pub do_raw :
      Option Client → String → String → String → String → Action R CallError RawResponse
  do_raw none method path body content_type =
      stop (http_error 503 "tenant projection is not configured")
  do_raw (some c) method path body content_type =
      send_raw (raw_call c method path body content_type)
