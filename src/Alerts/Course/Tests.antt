-- ===== src/Alerts/Course/Tests.antt =====
-- An evaluation of internal/alerts that fires the same rule twice.
use osspilot_ops_api.Common.{ℕ, String, ◌≡◌, refl, true, none, List, [], ◌∷◌, ◌+◌, map}
use osspilot_ops_api.Action.{ok}
use osspilot_ops_api.Database.{exec, query}
use osspilot_ops_api.Schema.Alerts.{EventRow}
use osspilot_ops_api.Project.World.{World, on_db, on_remote}
use osspilot_ops_api.Alerts.Tests.{rule, start, json}
use osspilot_ops_api.Alerts.Rows.{nz_json}
use osspilot_ops_api.Alerts.Events.{
  has_open_event, insert_event, insert_event_row, get_event, event_fits, event_refers, resolve_open,
}
use osspilot_ops_api.Alerts.Dispatch.{dispatch, channel_ids}
use osspilot_ops_api.Alerts.Evaluate.{
  Evaluator, Subject, fire, fire_new, project_event, resolve_and_project,
}
use osspilot_ops_api.Alerts.Unique.{OneOpen, Unique}
use osspilot_ops_api.Alerts.Course.{Course, begin, then_turn, fires, resolves, Course-OneOpen}

abbrev evaluator : Evaluator ℕ
evaluator = record {
  net = record {
    exchange = λ call n. (none, n + 1);
    escape = λ s. s;
    query_escape = λ s. s;
    detail = λ s. none;
    status_text = λ n. "";
  };
  poster = record {
    post = λ url body n. (ok 200, n + 1);
    decode_ids = λ s. none;
    with_notifications = λ s ds. none;
  };
  json = json;
  project = none;
  stats = true;
  now = 60;
}

abbrev whole : Subject
whole = record { tenant_id = none; bucket_id = none; bucket_name = none }

abbrev quiet : World ℕ
quiet = record {
  db = record start {
    tables = record start.tables {
      alerts = record start.tables.alerts { events = []; next_event_id = 1 };
    };
  };
  remote = 0;
}

abbrev fired : World ℕ → World ℕ
fired w = (fire evaluator rule whole "RGW" "" "{}" w).1

abbrev ended : World ℕ → World ℕ
ended w = (resolve_and_project evaluator rule none none w).1

code : Unit {0}
unfolding fire fire_new project_event resolve_and_project dispatch channel_ids nz_json
    has_open_event insert_event insert_event_row get_event event_fits event_refers resolve_open
    on_db on_remote exec query Unique
code = tt

abbrev statuses : World ℕ → List String
statuses w = map (λ (e : EventRow). e.status) w.db.tables.alerts.events

fired_once : statuses (fired (fired quiet)) ≡ "firing" ∷ []
unfolding code
fired_once = refl

fired_again : statuses (fired (ended (fired quiet))) ≡ "resolved" ∷ "firing" ∷ []
unfolding code
fired_again = refl

abbrev course : Course (Unit {0}) json true quiet (fired (ended (fired quiet)))
course =
    then_turn
      (then_turn (then_turn begin (fires evaluator rule whole "RGW" "" "{}" refl))
        (resolves evaluator rule none none refl))
      (fires evaluator rule whole "RGW" "" "{}" refl)

Course-OneOpen_example : OneOpen (fired (ended (fired quiet))).db.tables.alerts.events
unfolding Unique
Course-OneOpen_example = Course-OneOpen (Unit {0}) json true course (tt, tt)
