-- ===== src/Lifecycle/Run/Tests.antt =====
-- The worker of internal/lifecycle with a client of two pages that keeps a log of the deleted keys.
use osspilot_ops_api.Common.{
  ℕ, ◌*◌, ◌<◌, String, ◌≡◌, refl, sym, ap, ◌∙◌, inl, inr, Bool-cases, true, false, none, some, List,
  [], ◌∷◌, ◌==◌, arith, All, if◌then◌else◌,
}
use mathlib.Core.Path.{subst}
use osspilot_ops_api.Common.Int.{pos}
use osspilot_ops_api.Action.{ok}
use osspilot_ops_api.Lifecycle.Rules.{Rule}
use osspilot_ops_api.Lifecycle.Runner.{
  ObjectInfo, Page, Client, is_expired, live_only, delete_pages, max_deletes_per_action,
}
use osspilot_ops_api.Lifecycle.Runner.Deletions.{Preserved, delete_pages-P}
use osspilot_ops_api.Lifecycle.Run.{Totals, no_totals, run_rules}
use osspilot_ops_api.Lifecycle.Run.Totality.{Advancing, Within, run_rules_ends}
use osspilot_ops_api.Lifecycle.Runner.Ending.{ObjectsAdvance, UploadsAdvance}

abbrev Log : Type 0
Log = List String

abbrev page : String → Page ObjectInfo String
page token =
    if token == ""
    then record {
      items =
          record { key = "a"; last_modified = some 5 }
          ∷ record { key = ".trash/b"; last_modified = some 5 }
          ∷ [];
      next = "a";
      truncated = true;
    }
    else record {
      items = record { key = "c"; last_modified = some 999999 } ∷ [];
      next = "";
      truncated = false;
    }

abbrev client : Client Log
client = record {
  list_objects = λ bucket prefix token w. (some (page token), w);
  delete_object = λ bucket key w. (true, key ∷ w);
  list_multipart = λ bucket prefix key_marker upload_marker w. (none, w);
  abort_multipart = λ bucket key upload_id w. (false, w);
}

abbrev object_rank : String → String → String → ℕ
object_rank bucket prefix token = if token == "" then 1 else 0

page_advances :
    (token : String)
    → (page token).truncated ≡ true
    → object_rank "" "" (page token).next < object_rank "" "" token
page_advances token more = elim (Bool-cases (token == "")) [
  | inl start ↦ rw start (omega arith)
  | inr later ↦ ground arith
]

objects : (bucket prefix : String) → ObjectsAdvance client bucket prefix (object_rank bucket prefix)
unfolding ObjectsAdvance
objects bucket prefix token w p e truncated =
    let same : page token ≡ p = ground arith in
    rw (sym same) (page_advances token (ap (λ x. x.truncated) same ∙ truncated))

uploads : (bucket prefix : String) → UploadsAdvance client bucket prefix (λ k u. 0)
unfolding UploadsAdvance
uploads bucket prefix key_marker upload_marker w p e truncated = ground arith

abbrev advancing : Advancing client 2
advancing = record {
  object_rank = object_rank;
  upload_rank = λ bucket prefix k u. 0;
  objects = objects;
  uploads = uploads;
  object_fuel = λ bucket prefix. omega arith;
  upload_fuel = λ bucket prefix. omega arith;
}

abbrev rule : Rule
rule = record {
  id = 1;
  bucket_id = 1;
  bucket_name = "data";
  tenant_id = 1;
  prefix = "";
  enabled = true;
  delete_after_days = some (pos 1);
  cleanup_trash_after_days = none;
  cleanup_versions_after_days = none;
  cleanup_multipart_after_days = some (pos 7);
  created_at = 0;
  updated_at = 0;
}

run_rules_ends_example :
    (t' : Totals) × ((run_rules client 1000000 2 (rule ∷ []) no_totals []).0 ≡ ok t')
    × Within (1 * max_deletes_per_action) no_totals t'
run_rules_ends_example = run_rules_ends client 1000000 2 advancing (rule ∷ []) no_totals []

-- The key "c" is listed with a time that is not expired.
abbrev Seen : ObjectInfo → Type 0
Seen obj = (obj.key == "c") ≡ true → is_expired 1000000 1 obj.last_modified ≡ false

page_items : (token : String) → All Seen (page token).items
unfolding is_expired
page_items token = elim (Bool-cases (token == "")) [
  | inl start ↦ rw start ((λ e. cc), ((λ e. cc), tt))
  | inr later ↦ rw later ((λ e. refl), tt)
]

-- Only live keys are deleted, and never the fresh one.
abbrev IsLive : Log → Type 0
IsLive w = All (λ key. (live_only key ≡ true) × ((key == "c") ≡ false)) w

fresh_kept :
    (obj : ObjectInfo)
    → Seen obj
    → is_expired 1000000 1 obj.last_modified ≡ true
    → (obj.key == "c") ≡ false
fresh_kept obj seen expired = elim (Bool-cases (obj.key == "c")) [
  | inl fresh ↦ (let fresh_time = seen fresh in cc)
  | inr other ↦ other
]

kept : Preserved client 1000000 "data" 1 live_only Seen IsLive
kept = record {
  listed = λ prefix token w live. live;
  items = λ prefix token w p live e.
      let same : page token ≡ p = ground arith in
      subst (λ x. All Seen x.items) same (page_items token);
  deleted = λ obj w seen good expired live. ((good, fresh_kept obj seen expired), live);
}

delete_pages-P_example : IsLive (delete_pages client 1000000 "data" 1 live_only 2 "" "" 0 []).1
delete_pages-P_example =
    delete_pages-P client 1000000 "data" 1 live_only Seen IsLive kept 2 "" "" 0 [] tt
