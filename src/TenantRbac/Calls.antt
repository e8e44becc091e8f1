-- ===== src/TenantRbac/Calls.antt =====
-- The calls of the tenant API that internal/tenantrbac makes.
use Prim.Native.String
use osspilot_ops_api.Common.{
  ℕ, String, ◌≡◌, refl, ap, ◌⊎◌, inl, inr, Bool, true, false, not, Option, none, some, List, first,
  arith, ◌==◌,
}
use osspilot_ops_api.Common.Decimal.{parse_id}
use osspilot_ops_api.Action.{Result, ok, err, guard, require}
use osspilot_ops_api.Action.Keeps.{
  Keeps, Returns, Keeps-bind, Keeps-pure, Keeps-if, Keeps-guard, Keeps-require, Returns-bind,
  Returns-bind_any, Returns-pure, Returns-guard, Returns-require,
}
use osspilot_ops_api.Action.Triple.{
  Post-same, Triple, Triple-bind, Triple-weaken, Triple-keep, Triple-frame_bind,
}
use osspilot_ops_api.Database.Keeps.{OnTables}
use osspilot_ops_api.Http.{reply, error, database}
use osspilot_ops_api.Http.Keeps.{handler_rules, Keeps-database, Keeps-refuse, Returns-database}
use osspilot_ops_api.Schema.{Tables}
use osspilot_ops_api.Schema.Audit.{AuditRow}
use osspilot_ops_api.Auth.{Request}
use osspilot_ops_api.Auth.Accounts.{User}
use osspilot_ops_api.Audit.Keeps.{write_for-Keeps}
use osspilot_ops_api.Accounts.Rows.{Account, by_account, get_account}
use osspilot_ops_api.Accounts.Lookup.{At, FoundAt, get_account-At, get_account-FoundAt}
use osspilot_ops_api.Project.{Client, CallError}
use osspilot_ops_api.Project.Reads.{RawResponse, do_raw, raw_call}
use osspilot_ops_api.Project.World.{World, on_db}
use osspilot_ops_api.Project.World.Both.{Both, Keeps-on_db-Both, Returns-on_db-Both, Triple-call}
use osspilot_ops_api.TenantRbac.{
  RbacHandler, Proxied, or_502, target, load_target, audit_change, answer_raw, proxy, is_success,
  trim_slashes, with_query,
}

negated : (b : Bool) → not b ≡ true → b ≡ false
negated b e = ground (arith, e)

module _ {R : Type 0} (h : RbacHandler R) (r : Request Unit) (call : Proxied) (user : Option User)
    (t : Tables) where
  -- The account of the path's id, and what the path has after it
  pub record Targets (out : Account × String) : Type 0 where
    pub id : ℕ
    pub parsed : parse_id (r.path_value "user_id") ≡ some id
    pub row : first (by_account id) t.tenants.accounts ≡ some out.0.row
    pub rest : out.1 ≡ trim_slashes (r.path_value "rest")
    pub not_empty : (out.1 == "") ≡ false

  load_target-At : Keeps (At t) (load_target h r call user)
  unfolding load_target
  load_target-At = search (handler_rules, get_account-At) depth 20

  load_target-Targets : Returns (At t) Targets (load_target h r call user)
  unfolding load_target
  load_target-Targets =
      Returns-bind_any (guard h.accounts (reply (error 503 "database is not configured"))) _
        (Keeps-guard _ _)
        λ _.
          Returns-bind_any
            (require (reply (error 503 "tenant projection is not configured")) h.project) _
            (Keeps-require _ _)
            λ _.
              Returns-bind (λ id. parse_id (r.path_value "user_id") ≡ some id)
                (require (reply (error 400 "invalid user_id")) (parse_id (r.path_value "user_id")))
                _ (Keeps-require _ _) (Returns-require _ _ (λ a e. e))
                λ id parsed.
                  Returns-bind (FoundAt t id) (database (get_account id)) _
                    (Keeps-database _ (get_account-At t id))
                    (Returns-database _ (get_account-FoundAt t id))
                    λ found at.
                      Returns-bind
                        (λ acct. first (by_account id) t.tenants.accounts ≡ some acct.row)
                        (require (reply (error 404 "Account not found")) found) _
                        (Keeps-require _ _) (Returns-require _ found at.row)
                        λ acct row.
                          Returns-bind (λ _. not (trim_slashes (r.path_value "rest") == "") ≡ true)
                            (guard (not (trim_slashes (r.path_value "rest") == ""))
                              (reply (error 404 "not found")))
                            _ (Keeps-guard _ _) (Returns-guard _ _)
                            λ _ full.
                              Returns-pure (acct, trim_slashes (r.path_value "rest"))
                                (record {
                                  id = id;
                                  parsed = parsed;
                                  row = row;
                                  rest = refl;
                                  not_empty = negated _ full;
                                })

  -- Nothing but the audit log differs.
  unfoldable pub Logged : Tables → Type 0
  Logged u = u ≡ record t { audit_logs = u.audit_logs }

  Logged-audit :
      (u : Tables) (logs : List AuditRow) → Logged u → Logged (record u { audit_logs = logs })
  unfolding Logged
  Logged-audit u logs k = ap (λ (x : Tables). record x { audit_logs = logs }) k

  module _ (start : R) where
    -- What the tenant API has seen: nothing, or one call for an account of the table
    pub record Forwarded (now : R) : Type 0 where
      pub out : Account × String
      pub targets : Targets out
      pub client : Client
      pub configured : h.project ≡ some client
      pub sent :
          now
          ≡ (h.net.exchange
              (raw_call h.net client call.method
                (with_query
                  (String.◌++◌ "/internal/accounts/"
                    (String.◌++◌ (h.net.escape out.0.row.username) (String.◌++◌ "/rbac/" out.1)))
                  call.raw_query)
                call.body
                call.content_type)
              start).1

    abbrev pub Confined : World R → Type 0
    Confined w = Logged w.db.tables × ((w.remote ≡ start) ⊎ Forwarded w.remote)

    Unsent : World R → Type 0
    Unsent = Both (At t) (λ x. x ≡ start)

    Sent : World R → Type 0
    Sent = Both (OnTables Logged) (λ x. (x ≡ start) ⊎ Forwarded x)

    call-Sent :
        (out : Account × String)
        → Targets out
        → (c : Option Client) → h.project ≡ c
        → (x : R) → x ≡ start
        → ((do_raw h.net c call.method
              (target h r call user out.0.row.username out.1)
              call.body
              call.content_type
              x).1
            ≡ start)
          ⊎ Forwarded
              (do_raw h.net c call.method
                (target h r call user out.0.row.username out.1)
                call.body
                call.content_type
                x).1
    unfolding do_raw target
    call-Sent out k none e x same = inl same
    call-Sent out k (some c) e x same =
        inr (record { out = out; targets = k; client = c; configured = e; sent = rw same refl })

    or_502-Sent : (o : Result CallError RawResponse) → Keeps Sent (or_502 o)
    or_502-Sent (ok raw) = Keeps-pure raw
    or_502-Sent (err e) = Keeps-refuse 502 "tenant api error"

    audit_change-Logged : Keeps (OnTables Logged) (audit_change h r call user)
    audit_change-Logged = Keeps-if (call.method == "GET") _ _ (Keeps-pure tt) (
        write_for-Keeps Logged Logged-audit h.log r.origin user "modify_permission" "" "success" "")

    answer_raw-Sent :
        (acct : Account) (raw : RawResponse) → Keeps Sent (answer_raw h r call user acct raw)
    unfolding answer_raw Sent
    answer_raw-Sent acct raw =
        Keeps-if (is_success raw.status) _ _
          (Keeps-bind _ _ (Keeps-on_db-Both _ audit_change-Logged) (λ _. Keeps-pure _))
          (Keeps-pure _)

    begin : (w : World R) → Unsent w → Sent w
    unfolding Unsent Sent Logged
    begin w k = record { db = record { holds = rw k.db.holds refl }; remote = inl k.remote }

    logged : (w : World R) → Both (At t) (λ x. (x ≡ start) ⊎ Forwarded x) w → Sent w
    unfolding Sent Logged
    logged w q = record { db = record { holds = rw q.db.holds refl }; remote = q.remote }

    proxy-Triple : Triple Unsent (proxy h r call user) (λ _. Sent) Sent
    unfolding proxy Unsent Sent
    proxy-Triple =
        Triple-frame_bind Targets (on_db (load_target h r call user)) _
          (Keeps-on_db-Both _ load_target-At) (Returns-on_db-Both _ load_target-Targets) begin
          λ out k.
            Triple-bind (λ _. Sent) _ _
              (Triple-weaken
                (Triple-call {Q' = λ x. (x ≡ start) ⊎ Forwarded x} _
                  (call-Sent out k h.project refl))
                (λ _ w q. logged w q) (λ w q. q))
              λ outcome.
                Triple-keep _ (Keeps-bind _ _ (or_502-Sent outcome) (answer_raw-Sent out.0))
                  (λ w q. q)

    -- Whatever faults occur and whatever the tenant API answers: `proxy` changes no table but the
    -- audit log, and the tenant API sees nothing of it, or one call, with the method, the query and the
    -- body of the request, whose path is that of the account with the id of the request and which is
    -- signed with the secret of the client.
    pub proxy-Confined :
        (w : World R) → w.db.tables ≡ t → w.remote ≡ start → Confined (proxy h r call user w).1
    unfolding Unsent Sent
    proxy-Confined w e same =
        let end =
          Post-same Sent (proxy h r call user w)
            (proxy-Triple.at w (record { db = record { holds = e }; remote = same })) in
        (end.db.holds, end.remote)
