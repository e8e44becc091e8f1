-- ===== src/Alerts/Dispatch.antt =====
-- internal/alerts/dispatch.go: an event goes to the channels of its rule. What is encoded is a value.
use osspilot_ops_api.Common.{ℕ, String, Option, none, some, List, [], ◌∷◌, ◌==◌, if◌then◌else◌}
use osspilot_ops_api.Common.Int.{ℤ, pos, negsuc}
use osspilot_ops_api.Common.Text.{trim_space}
use osspilot_ops_api.Action.{Result, ok, err, Action, attempt, ◌>>=◌, ◌>>◌, pure}
use osspilot_ops_api.Database.{DbError}
use osspilot_ops_api.Schema.{Store}
use osspilot_ops_api.Schema.Alerts.{AlertRow, ChannelRow, EventRow}
use osspilot_ops_api.Project.World.{World, on_db, on_remote}
use osspilot_ops_api.Alerts.Valid.{Value, null, other, text}
use osspilot_ops_api.Alerts.Rows.{list_enabled_channels, nz_array}
use osspilot_ops_api.Alerts.Events.{update_event_details}
use osspilot_ops_api.Alerts.{Json, as_object}

-- `recipients` is the value in the configuration, `none` for none.
pub record Delivery : Type 0 where
  pub channel_id : ℕ
  pub channel_type : String
  pub status : String
  pub http_status : Option ℕ
  pub recipients : Option Value
  pub error : String
  pub reason : String

-- `alertPayload`, whose map has these keys
pub record AlertPayload : Type 0 where
  pub alert : String
  pub severity : String
  pub status : String
  pub message : String
  pub rule_type : String
  pub tenant_id : Option ℕ
  pub bucket_name : Option String
  pub fired_at : ℕ

-- The bodies of `prepareSend`: all but a webhook's are made of the payload's text or fields.
pub data Body : Type 0 where
  webhook wecom feishu alertmanager : AlertPayload → Body

-- `prepareSend`: a delivery that is done, with its recipients, error and reason, or a body to send
pub data Prepared : Type 0 where
  queued : Option Value → Prepared
  refused : String → Prepared
  skipped : String → Prepared
  sends : String → Body → Prepared

-- `http.Client` and the encoding of the results into the details
pub record Poster (R : Type 0) : Type 0 where
  -- `postJSON`: the status, or the text of the error
  pub post : String → Body → R → Result String ℕ × R
  -- `json.Unmarshal` of an array of numbers
  pub decode_ids : String → Option (List ℤ)
  -- `json.Marshal` of the object of a text with the key `notifications` set
  pub with_notifications : String → List Delivery → Option String

unfoldable pub alert_payload : EventRow → AlertPayload
alert_payload ev = record {
  alert = ev.title;
  severity = ev.severity;
  status = if ev.status == "" then "firing" else ev.status;
  message = ev.message;
  rule_type = ev.rule_type;
  tenant_id = ev.tenant_id;
  bucket_name = ev.bucket_name;
  fired_at = ev.fired_at;
}

abbrev or_blank : Option Value → String
or_blank (some (text s)) = trim_space s
or_blank (some null) = ""
or_blank (some other) = ""
or_blank none = ""

-- `configString`
unfoldable pub config_string : (String → Option Value) → String → String
config_string config key = or_blank (config key)

abbrev to_url : (String → Option Value) → String → String → Body → Prepared
to_url config key missing body =
    let url = config_string config key in if url == "" then refused missing else sends url body

-- `prepareSend`
unfoldable pub prepare_send : String → (String → Option Value) → AlertPayload → Prepared
unfolding config_string
prepare_send channel_type config payload =
    if channel_type == "email"
    then queued (config "recipients")
    else if channel_type == "webhook"
    then to_url config "url" "missing url" (webhook payload)
    else if channel_type == "wecom"
    then to_url config "webhook_url" "missing webhook_url" (wecom payload)
    else if channel_type == "feishu"
    then to_url config "webhook_url" "missing webhook_url" (feishu payload)
    else if channel_type == "alertmanager"
    then to_url config "url" "missing url" (alertmanager payload)
    else skipped "unknown_channel_type"

abbrev delivery : ChannelRow → String → Delivery
delivery ch status = record {
  channel_id = ch.id;
  channel_type = ch.channel_type;
  status = status;
  http_status = none;
  recipients = none;
  error = "";
  reason = "";
}

abbrev posted : ChannelRow → Result String ℕ → Delivery
posted ch (ok code) = record (delivery ch "sent") { http_status = some code }
posted ch (err e) = record (delivery ch "failed") { error = e }

-- The ids that name rows
abbrev pub row_ids : List ℤ → List ℕ
row_ids [] = []
row_ids (pos n ∷ ids) = n ∷ row_ids ids
row_ids (negsuc n ∷ ids) = row_ids ids

abbrev or_no_ids : Option (List ℤ) → List ℤ
or_no_ids none = []
or_no_ids (some ids) = ids

module _ {R : Type 0} (poster : Poster R) (j : Json) where
  -- `channelIDs`
  unfoldable pub channel_ids : String → List ℤ
  channel_ids raw = or_no_ids (poster.decode_ids (nz_array raw))

  abbrev send : ChannelRow → Prepared → R → Delivery × R
  send ch (queued recipients) r = (record (delivery ch "queued") { recipients = recipients }, r)
  send ch (refused detail) r = (record (delivery ch "failed") { error = detail }, r)
  send ch (skipped detail) r = (record (delivery ch "skipped") { reason = detail }, r)
  send ch (sends url body) r = (posted ch (poster.post url body r).0, (poster.post url body r).1)

  -- `sendChannel`
  unfoldable pub send_channel : ChannelRow → AlertPayload → R → Delivery × R
  unfolding prepare_send
  send_channel ch payload = send ch (prepare_send ch.channel_type (as_object j ch.config) payload)

  -- The loop of `dispatch`
  unfoldable pub send_all : List ChannelRow → AlertPayload → Action R Unit (List Delivery)
  send_all [] payload = pure []
  send_all (ch ∷ chs) payload = do
    d ← λ r. (ok (send_channel ch payload r).0, (send_channel ch payload r).1)
    ds ← send_all chs payload
    pure (d ∷ ds)

  abbrev pub note_details : ℕ → Option String → Action Store Unit Unit
  note_details id none = pure tt
  note_details id (some raw) = do attempt (update_event_details j.jsonb id raw); pure tt

  abbrev pub dispatch_to : EventRow → Result DbError (List ChannelRow) → Action (World R) Unit Unit
  dispatch_to ev (err e) = pure tt
  dispatch_to ev (ok chans) = do
    results ← on_remote (send_all chans (alert_payload ev))
    on_db (note_details ev.id (poster.with_notifications ev.details results))

  abbrev pub dispatch_ids : EventRow → List ℤ → Action (World R) Unit Unit
  dispatch_ids ev [] = pure tt
  dispatch_ids ev (id ∷ ids) = do
    chans ← attempt (on_db (list_enabled_channels (row_ids (id ∷ ids))))
    dispatch_to ev chans

  -- `dispatch`; the store is there, and the log is left out.
  unfoldable pub dispatch : Option EventRow → AlertRow → Action (World R) Unit Unit
  dispatch none rule = pure tt
  dispatch (some ev) rule = dispatch_ids ev (channel_ids rule.channel_ids)
