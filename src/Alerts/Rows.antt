-- ===== src/Alerts/Rows.antt =====
-- internal/alerts/store.go: the rules and the channels
use Prim.Native.String.{count}
use osspilot_ops_api.Common.{
  ℕ, eqb, leb, ◌+◌, String, Bool, not, ◌&&◌, Option, none, some, List, [], ◌∷◌, ◌++◌, map, any,
  keep, first, length, ◌==◌, if◌then◌else◌,
}
use osspilot_ops_api.Action.{Result, ok, err, Action, ◌>>=◌, ◌>>◌, pure}
use osspilot_ops_api.Database.{DbError, broken, exec, query}
use osspilot_ops_api.Schema.{Tables, Store}
use osspilot_ops_api.Schema.Alerts.{AlertRow, ChannelRow, EventRow}

-- `nzJSON`
unfoldable pub nz_json : String → String → String
nz_json raw empty = if raw == "" then empty else raw

-- `nzArray`
abbrev pub nz_array : String → String
nz_array raw = nz_json raw "[]"

abbrev pub by_alert : ℕ → AlertRow → Bool
by_alert id r = eqb r.id id

abbrev pub by_channel : ℕ → ChannelRow → Bool
by_channel id c = eqb c.id id

-- `ListRules`
unfoldable pub list_alerts : Action Store DbError (List AlertRow)
unfolding query
list_alerts = query (λ t. ok t.alerts.alert_rules)

-- `ListEnabledRules`
unfoldable pub list_enabled_alerts : Action Store DbError (List AlertRow)
unfolding query
list_enabled_alerts = query (λ t. ok (keep (λ (r : AlertRow). r.enabled) t.alerts.alert_rules))

-- `CountEnabled`
unfoldable pub count_enabled : Action Store DbError ℕ
unfolding query
count_enabled = query (λ t. ok (length (keep (λ (r : AlertRow). r.enabled) t.alerts.alert_rules)))

-- `GetRule`
unfoldable pub get_alert : ℕ → Action Store DbError (Option AlertRow)
unfolding query
get_alert id = query (λ t. ok (first (by_alert id) t.alerts.alert_rules))

-- `ListChannels`
unfoldable pub list_channels : Action Store DbError (List ChannelRow)
unfolding query
list_channels = query (λ t. ok t.alerts.channels)

-- `ListEnabledChannels`, whose rows may come in any order
unfoldable pub list_enabled_channels : List ℕ → Action Store DbError (List ChannelRow)
unfolding query
list_enabled_channels [] = pure []
list_enabled_channels (id ∷ ids) =
    query (λ t.
      ok (keep (λ (c : ChannelRow). any (eqb c.id) (id ∷ ids) && c.enabled) t.alerts.channels))

-- `GetChannel`
unfoldable pub get_channel : ℕ → Action Store DbError (Option ChannelRow)
unfolding query
get_channel id = query (λ t. ok (first (by_channel id) t.alerts.channels))

unfoldable pub alert_fits : AlertRow → Bool
alert_fits r = leb (count r.name) 128 && leb (count r.rule_type) 64 && leb (count r.severity) 32

unfoldable pub channel_fits : ChannelRow → Bool
channel_fits c = leb (count c.name) 128 && leb (count c.channel_type) 32

abbrev pub with_alerts : (List AlertRow → List AlertRow) → Tables → Tables
with_alerts f t = record t { alerts = record t.alerts { alert_rules = f t.alerts.alert_rules } }

abbrev pub with_channels : (List ChannelRow → List ChannelRow) → Tables → Tables
with_channels f t = record t { alerts = record t.alerts { channels = f t.alerts.channels } }

-- `jsonb` is how the database stores a JSON text: `none` where it is not one.
module _ (jsonb : String → Option String) where
  -- The row with its JSON columns as they are stored
  abbrev pub stored_alert : AlertRow → Option String → Option String → Option AlertRow
  stored_alert r none ids = none
  stored_alert r (some config) none = none
  stored_alert r (some config) (some ids) = some (record r { config = config; channel_ids = ids })

  unfoldable pub write_alert : AlertRow → Option AlertRow
  unfolding nz_json
  write_alert r = stored_alert r (jsonb (nz_json r.config "{}")) (jsonb (nz_array r.channel_ids))

  abbrev pub stored_channel : ChannelRow → Option String → Option ChannelRow
  stored_channel c none = none
  stored_channel c (some config) = some (record c { config = config })

  unfoldable pub write_channel : ChannelRow → Option ChannelRow
  unfolding nz_json
  write_channel c = stored_channel c (jsonb (nz_json c.config "{}"))

  abbrev add_alert : Option AlertRow → Tables → Result DbError ℕ × Tables
  add_alert none t = (err broken, t)
  add_alert (some r) t =
      if alert_fits r
      then (
        ok r.id,
        record t {
          alerts = record t.alerts {
            alert_rules = t.alerts.alert_rules ++ r ∷ [];
            next_alert_rule_id = t.alerts.next_alert_rule_id + 1;
          };
        },
      )
      else (err broken, t)

  -- INSERT INTO alert_rules
  unfoldable pub insert_alert_row : (ℕ → AlertRow) → Tables → Result DbError ℕ × Tables
  unfolding alert_fits write_alert
  insert_alert_row row t = add_alert (write_alert (row t.alerts.next_alert_rule_id)) t

  -- `InsertRule`
  unfoldable pub insert_alert : (ℕ → AlertRow) → Action Store DbError (Option AlertRow)
  insert_alert row = do id ← exec (insert_alert_row row); get_alert id

  -- UPDATE alert_rules SET … : the type of a rule stays.
  abbrev pub set_alert : AlertRow → ℕ → AlertRow → AlertRow
  set_alert new at old = record old {
    name = new.name;
    enabled = new.enabled;
    severity = new.severity;
    config = new.config;
    channel_ids = new.channel_ids;
    notify_tenant = new.notify_tenant;
    description = new.description;
    updated_at = at;
  }

  abbrev replace_alert : Option AlertRow → ℕ → Tables → Result DbError Unit × Tables
  replace_alert none at t = (err broken, t)
  replace_alert (some new) at t =
      if any (λ r. by_alert new.id r && not (alert_fits (set_alert new at r))) t.alerts.alert_rules
      then (err broken, t)
      else (ok tt, with_alerts (map (λ r. if by_alert new.id r then set_alert new at r else r)) t)

  unfoldable pub update_alert_row : AlertRow → ℕ → Tables → Result DbError Unit × Tables
  unfolding alert_fits write_alert
  update_alert_row new at = replace_alert (write_alert new) at

  -- `UpdateRule`
  unfoldable pub update_alert : AlertRow → ℕ → Action Store DbError (Option AlertRow)
  update_alert new at = do exec (update_alert_row new at); get_alert new.id

  abbrev add_channel : Option ChannelRow → Tables → Result DbError ℕ × Tables
  add_channel none t = (err broken, t)
  add_channel (some c) t =
      if channel_fits c
      then (
        ok c.id,
        record t {
          alerts = record t.alerts {
            channels = t.alerts.channels ++ c ∷ [];
            next_channel_id = t.alerts.next_channel_id + 1;
          };
        },
      )
      else (err broken, t)

  -- INSERT INTO notification_channels
  unfoldable pub insert_channel_row : (ℕ → ChannelRow) → Tables → Result DbError ℕ × Tables
  unfolding channel_fits write_channel
  insert_channel_row row t = add_channel (write_channel (row t.alerts.next_channel_id)) t

  -- `InsertChannel`
  unfoldable pub insert_channel : (ℕ → ChannelRow) → Action Store DbError (Option ChannelRow)
  insert_channel row = do id ← exec (insert_channel_row row); get_channel id

  abbrev pub set_channel : ChannelRow → ℕ → ChannelRow → ChannelRow
  set_channel new at old = record old {
    name = new.name;
    enabled = new.enabled;
    config = new.config;
    updated_at = at;
  }

  abbrev replace_channel : Option ChannelRow → ℕ → Tables → Result DbError Unit × Tables
  replace_channel none at t = (err broken, t)
  replace_channel (some new) at t =
      if any (λ c. by_channel new.id c && not (channel_fits (set_channel new at c)))
        t.alerts.channels
      then (err broken, t)
      else (
        ok tt,
        with_channels (map (λ c. if by_channel new.id c then set_channel new at c else c)) t,
      )

  unfoldable pub update_channel_row : ChannelRow → ℕ → Tables → Result DbError Unit × Tables
  unfolding channel_fits write_channel
  update_channel_row new at = replace_channel (write_channel new) at

  -- `UpdateChannel`
  unfoldable pub update_channel : ChannelRow → ℕ → Action Store DbError (Option ChannelRow)
  update_channel new at = do exec (update_channel_row new at); get_channel new.id

-- `DeleteChannel`
unfoldable pub delete_channel : ℕ → Action Store DbError Bool
delete_channel id = exec (λ t. (
  ok (any (by_channel id) t.alerts.channels),
  with_channels (keep (λ c. not (by_channel id c))) t,
))

-- rule_id … ON DELETE SET NULL
abbrev pub forget_rule : ℕ → Option ℕ → Option ℕ
forget_rule id none = none
forget_rule id (some n) = if eqb n id then none else some n

unfoldable pub drop_alert : ℕ → Tables → Tables
drop_alert id t = record t {
  alerts = record t.alerts {
    alert_rules = keep (λ r. not (by_alert id r)) t.alerts.alert_rules;
    events =
        map (λ (e : EventRow). record e { rule_id = forget_rule id e.rule_id }) t.alerts.events;
  };
}

-- `DeleteRule`
unfoldable pub delete_alert : ℕ → Action Store DbError Bool
unfolding drop_alert
delete_alert id = exec (λ t. (ok (any (by_alert id) t.alerts.alert_rules), drop_alert id t))
