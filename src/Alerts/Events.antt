-- ===== src/Alerts/Events.antt =====
-- internal/alerts/store.go: the events
use Prim.Native.String.{count}
use osspilot_ops_api.Common.{
  ℕ, eqb, leb, ltb, ◌+◌, ◌-◌, zero, suc, ◌*◌, ◌%◌, ◌^◌, String, Bool, true, false, not, ◌&&◌, ◌||◌,
  Option, none, some, List, [], ◌∷◌, ◌++◌, map, any, keep, first, length, take, ◌==◌, if◌then◌else◌,
}
use osspilot_ops_api.Action.{Result, ok, err, Action, ◌>>=◌, ◌>>◌, pure}
use osspilot_ops_api.Database.{DbError, broken, exec, query}
use osspilot_ops_api.Schema.{Tables, Store}
use osspilot_ops_api.Schema.Ops.{OpsUser}
use osspilot_ops_api.Schema.Alerts.{EventRow}
use osspilot_ops_api.Accounts.Rows.{by_account}
use osspilot_ops_api.Buckets.Rows.{by_bucket}
use osspilot_ops_api.Alerts.Rows.{nz_json, by_alert}

abbrev pub by_event : ℕ → EventRow → Bool
by_event id e = eqb e.id id

-- status IN ('firing','acknowledged')
abbrev pub is_open : EventRow → Bool
is_open e = e.status == "firing" || e.status == "acknowledged"

-- `column = $1`: a NULL is not equal to anything.
abbrev pub equals : Option ℕ → ℕ → Bool
equals none id = false
equals (some n) id = eqb n id

-- `column = $1` where the argument is set, `column IS NULL` else
abbrev pub same_id : Option ℕ → Option ℕ → Bool
same_id none none = true
same_id none (some id) = false
same_id (some n) none = false
same_id (some n) (some id) = eqb n id

-- ORDER BY fired_at DESC, id DESC
abbrev pub later : EventRow → EventRow → Bool
later a b = ltb b.fired_at a.fired_at || (eqb a.fired_at b.fired_at && leb b.id a.id)

unfoldable pub insert_event_by_time : EventRow → List EventRow → List EventRow
insert_event_by_time e [] = e ∷ []
insert_event_by_time e (x ∷ xs) =
    let rest = insert_event_by_time e xs in if later e x then e ∷ x ∷ xs else x ∷ rest

unfoldable pub order_events : List EventRow → List EventRow
unfolding insert_event_by_time
order_events [] = []
order_events (e ∷ es) = insert_event_by_time e (order_events es)

abbrev pub skip : ℕ → List EventRow → List EventRow
skip zero es = es
skip (suc n) [] = []
skip (suc n) (e ∷ es) = skip n es

-- `eventWhere`
abbrev pub event_where : String → Option ℕ → EventRow → Bool
event_where status none e = status == "" || e.status == status
event_where status (some tenant_id) e =
    (status == "" || e.status == status) && equals e.tenant_id tenant_id

-- `(page-1)*pageSize` of `int`s, as 64 bits
unfoldable pub offset : ℕ → ℕ → ℕ
offset page page_size = (page - 1) * page_size % 2 ^ 64

-- OFFSET refuses a negative number.
unfoldable pub page_of : ℕ → ℕ → List EventRow → Result DbError (List EventRow)
unfolding offset
page_of page page_size es =
    if ltb (offset page page_size) (2 ^ 63)
    then ok (take page_size (skip (offset page page_size) es))
    else err broken

-- `ListEvents`: the count and the page are two statements.
unfoldable pub list_events : String → Option ℕ → ℕ → ℕ → Action Store DbError (List EventRow × ℕ)
unfolding query order_events page_of
list_events status tenant_id page page_size = do
  total ← query (λ t. ok (length (keep (event_where status tenant_id) t.alerts.events)))
  rows ← query (λ t.
      page_of page page_size (order_events (keep (event_where status tenant_id) t.alerts.events)))
  pure (rows, total)

-- `RecentEvents`
unfoldable pub recent_events : ℕ → Action Store DbError (List EventRow)
unfolding query order_events
recent_events limit = query (λ t. ok (take limit (order_events t.alerts.events)))

-- `GetEvent`
unfoldable pub get_event : ℕ → Action Store DbError (Option EventRow)
unfolding query
get_event id = query (λ t. ok (first (by_event id) t.alerts.events))

abbrev pub with_events : (List EventRow → List EventRow) → Tables → Tables
with_events f t = record t { alerts = record t.alerts { events = f t.alerts.events } }

-- UPDATE alert_events SET … WHERE …
abbrev pub update_where : (EventRow → Bool) → (EventRow → EventRow) → List EventRow → List EventRow
update_where test f = map (λ e. if test e then f e else e)

abbrev pub is_unresolved : ℕ → EventRow → Bool
is_unresolved id e = by_event id e && not (e.status == "resolved")

abbrev pub acknowledge_row : ℕ → ℕ → EventRow → EventRow
acknowledge_row user_id at e = record e {
  status = "acknowledged";
  acknowledged_at = some at;
  acknowledged_by = some user_id;
}

-- acknowledged_by REFERENCES ops_users (id)
unfoldable pub acknowledge_rows : ℕ → ℕ → ℕ → Tables → Result DbError Unit × Tables
acknowledge_rows id user_id at t =
    if any (is_unresolved id) t.alerts.events
      && not (any (λ (u : OpsUser). eqb u.id user_id) t.ops.users)
    then (err broken, t)
    else (ok tt, with_events (update_where (is_unresolved id) (acknowledge_row user_id at)) t)

-- `Acknowledge`
unfoldable pub acknowledge : ℕ → ℕ → ℕ → Action Store DbError (Option EventRow)
acknowledge id user_id at = do exec (acknowledge_rows id user_id at); get_event id

abbrev pub resolve_row : ℕ → EventRow → EventRow
resolve_row at e = record e { status = "resolved"; resolved_at = some at }

unfoldable pub resolve_rows : ℕ → ℕ → Tables → Result DbError Unit × Tables
resolve_rows id at t = (ok tt, with_events (update_where (is_unresolved id) (resolve_row at)) t)

-- `Resolve`
unfoldable pub resolve_event : ℕ → ℕ → Action Store DbError (Option EventRow)
resolve_event id at = do exec (resolve_rows id at); get_event id

-- An open event of the rule, the tenant and the bucket
abbrev pub is_open_for : ℕ → Option ℕ → Option ℕ → EventRow → Bool
is_open_for rule_id tenant_id bucket_id e =
    equals e.rule_id rule_id
    && is_open e
    && same_id e.tenant_id tenant_id
    && same_id e.bucket_id bucket_id

-- `HasOpenEvent`
unfoldable pub has_open_event : ℕ → Option ℕ → Option ℕ → Action Store DbError Bool
unfolding query
has_open_event rule_id tenant_id bucket_id =
    query (λ t. ok (any (is_open_for rule_id tenant_id bucket_id) t.alerts.events))

-- `ListOpenByRule`
unfoldable pub list_open_by_rule : ℕ → Action Store DbError (List EventRow)
unfolding query
list_open_by_rule rule_id =
    query (λ t. ok (keep (λ e. equals e.rule_id rule_id && is_open e) t.alerts.events))

-- The `WHERE` of `ResolveOpen`: an argument that is nil restricts nothing.
abbrev pub given_id : Option ℕ → Option ℕ → Bool
given_id column none = true
given_id column (some id) = equals column id

abbrev pub is_to_resolve : ℕ → Option ℕ → Option ℕ → EventRow → Bool
is_to_resolve rule_id tenant_id bucket_id e =
    equals e.rule_id rule_id
    && is_open e
    && given_id e.tenant_id tenant_id
    && given_id e.bucket_id bucket_id

-- `ResolveOpen`, with the number of rows
unfoldable pub resolve_open : ℕ → Option ℕ → Option ℕ → ℕ → Action Store DbError ℕ
resolve_open rule_id tenant_id bucket_id at = exec (λ t. (
  ok (length (keep (is_to_resolve rule_id tenant_id bucket_id) t.alerts.events)),
  with_events (update_where (is_to_resolve rule_id tenant_id bucket_id) (resolve_row at)) t,
))

unfoldable pub event_fits : EventRow → Bool
event_fits e =
    leb (count e.rule_type) 64
    && leb (count e.severity) 32
    && leb (count e.title) 255
    && (elim e.bucket_name [ none ↦ true | some s ↦ leb (count s) 255 ])

abbrev pub exists : Option ℕ → (ℕ → Bool) → Bool
exists none test = true
exists (some id) test = test id

-- The references of alert_events
unfoldable pub event_refers : Tables → EventRow → Bool
event_refers t e =
    exists e.rule_id (λ id. any (by_alert id) t.alerts.alert_rules)
    && exists e.tenant_id (λ id. any (by_account id) t.tenants.accounts)
    && exists e.bucket_id (λ id. any (by_bucket id) t.tenants.buckets)

module _ (jsonb : String → Option String) where
  abbrev pub append_event : EventRow → Tables → Tables
  append_event e t = record t {
    alerts = record t.alerts {
      events = t.alerts.events ++ e ∷ [];
      next_event_id = t.alerts.next_event_id + 1;
    };
  }

  abbrev pub add_event : Option String → EventRow → Tables → Result DbError ℕ × Tables
  add_event none e t = (err broken, t)
  add_event (some details) e t =
      if event_fits e && event_refers t e
      then (ok e.id, append_event (record e { details = details }) t)
      else (err broken, t)

  -- INSERT INTO alert_events
  unfoldable pub insert_event_row : (ℕ → EventRow) → Tables → Result DbError ℕ × Tables
  unfolding event_fits event_refers nz_json
  insert_event_row row t =
      let e = row t.alerts.next_event_id in add_event (jsonb (nz_json e.details "{}")) e t

  -- `InsertEvent`
  unfoldable pub insert_event : (ℕ → EventRow) → Action Store DbError (Option EventRow)
  insert_event row = do id ← exec (insert_event_row row); get_event id

  abbrev pub set_details : ℕ → Option String → Tables → Result DbError Unit × Tables
  set_details id none t = (err broken, t)
  set_details id (some details) t =
      (ok tt, with_events (update_where (by_event id) (λ e. record e { details = details })) t)

  -- `UpdateEventDetails`
  unfoldable pub update_event_details : ℕ → String → Action Store DbError Unit
  unfolding nz_json
  update_event_details id details = exec (set_details id (jsonb (nz_json details "{}")))
