-- ===== src/Grants/Requests/Replace.antt =====
-- `replace` of internal/grants, from the request to the table of the grants.
use osspilot_ops_api.Common.{
  ℕ, String, ◌≡◌, refl, sym, ap, ◌⊎◌, inl, inr, Bool, not, List, [], ◌∷◌, ◌++◌, map, keep, arith,
}
use osspilot_ops_api.Action.{Result, ok, err, Action}
use osspilot_ops_api.Action.Keeps.{Keeps, keeps_rules}
use osspilot_ops_api.Action.Triple.{
  Post, Triple, Triple-bind, Triple-keep, Triple-frame_bind, Triple-weaken,
}
use osspilot_ops_api.Database.Keeps.{OnTables, Keeps-query}
use osspilot_ops_api.Database.Triple.{Triple-exec, Triple-transaction}
use osspilot_ops_api.Http.{Exit, database}
use osspilot_ops_api.Http.Keeps.{handler_rules}
use osspilot_ops_api.Http.Triple.{Triple-database}
use osspilot_ops_api.Schema.{Tables}
use osspilot_ops_api.Schema.Tenants.{GrantRow}
use osspilot_ops_api.Auth.{Request}
use osspilot_ops_api.Accounts.Rows.{Account}
use osspilot_ops_api.Accounts.Lookup.{Asked}
use osspilot_ops_api.Project.{Network}
use osspilot_ops_api.Project.World.{World, on_db}
use osspilot_ops_api.Project.World.Keeps.{OnDb, Keeps-on_db, Keeps-on_remote, Returns-on_db}
use osspilot_ops_api.Project.World.Triple.{Triple-on_db}
use osspilot_ops_api.Grants.Rows.{
  of_account, with_grants, grant_row, insert_grant_row, insert_grants, replace_body, replace_grants,
  list_grants,
}
use osspilot_ops_api.Grants.Requests.{
  GrantsHandler, PutGrants, GrantBody, answer_grants, or_502, projected, replace,
}
use osspilot_ops_api.Grants.Requests.Effect.{
  AcceptedGrants, load_account-At, load_account-Asked, accept_grants-At, accept_grants-Accepted,
}

-- The grants of the account are these, and all else is as in `t`.
abbrev pub granted : ℕ → ℕ → List ℕ → Tables → Tables
granted account_id at ids =
    with_grants
      (λ gs. keep (λ g. not (of_account account_id g)) gs ++ map (grant_row account_id at) ids)

module _ (t : Tables) (account_id at : ℕ) where
  abbrev Holds : List GrantRow → Tables → Type 0
  Holds gs u = u ≡ with_grants (λ _. gs) t

  abbrev Anything : Tables → Type 0
  Anything u = Unit {0}

  append_assoc :
      (gs : List GrantRow) (g : GrantRow) (hs : List GrantRow) → (gs ++ g ∷ []) ++ hs ≡ gs ++ g ∷ hs
  append_assoc [] g hs = refl
  append_assoc (x ∷ gs) g hs = ap (λ ys. x ∷ ys) (append_assoc gs g hs)

  append_nil : (gs : List GrantRow) → gs ++ [] ≡ gs
  append_nil [] = refl
  append_nil (x ∷ gs) = ap (λ ys. x ∷ ys) (append_nil gs)

  insert_grant_row-Holds :
      (id : ℕ) (gs : List GrantRow) (u : Tables)
      → Holds gs u
      → Post
          (λ (_ : Unit {0}). Holds (gs ++ grant_row account_id at id ∷ []))
          Anything
          (insert_grant_row (grant_row account_id at id) u)
  unfolding insert_grant_row
  insert_grant_row-Holds id gs u h = ground arith

  insert_grants-Holds :
      (ids : List ℕ) (gs : List GrantRow)
      → Triple
          (OnTables (Holds gs))
          (insert_grants account_id at ids)
          (λ _. OnTables (Holds (gs ++ map (grant_row account_id at) ids)))
          (OnTables Anything)
  unfolding insert_grants
  insert_grants-Holds [] gs = record { at = λ s h. record { holds = rw (append_nil gs) h.holds } }
  insert_grants-Holds (id ∷ ids) gs =
      let rest = insert_grants-Holds ids (gs ++ grant_row account_id at id ∷ []) in
      Triple-bind (λ _. OnTables (Holds (gs ++ grant_row account_id at id ∷ []))) _ _
        (Triple-exec (Holds gs) Anything (λ _. Holds (gs ++ grant_row account_id at id ∷ [])) _
          (insert_grant_row-Holds id gs) (λ u h. tt))
        λ _.
          rw
            (sym (append_assoc gs (grant_row account_id at id) (map (grant_row account_id at) ids)))
            rest

  replace_body-granted :
      (ids : List ℕ)
      → Triple
          (OnTables (λ u. u ≡ t))
          (replace_body account_id at ids)
          (λ _. OnTables (λ u. u ≡ granted account_id at ids t))
          (OnTables Anything)
  unfolding replace_body
  replace_body-granted ids =
      let others = keep (λ g. not (of_account account_id g)) t.tenants.grants in
      Triple-bind (λ _. OnTables (Holds others)) _ _
        (Triple-exec (λ u. u ≡ t) Anything (λ _. Holds others) _ (λ u h. rw h refl) (λ u h. tt))
        λ _. insert_grants-Holds ids others

  replace_grants-granted :
      (ids : List ℕ)
      → Triple
          (OnTables (λ u. u ≡ t))
          (replace_grants account_id at ids)
          (λ _. OnTables (λ u. u ≡ granted account_id at ids t))
          (OnTables (λ u. u ≡ t))
  unfolding replace_grants
  replace_grants-granted ids =
      Triple-transaction t Anything (λ _ u. u ≡ granted account_id at ids t) _
        (replace_body-granted ids)

-- The account of the id in the path, and ids that `replace` accepts for it, are what is now granted.
pub record Replaced (t : Tables) (r : Request PutGrants) (u : Tables) : Type 0 where
  pub acct : Account
  pub ids : List ℕ
  pub asked : Asked t r acct
  pub accepted : AcceptedGrants t r acct ids
  pub tables : u ≡ granted acct.row.id r.now ids t

module _ {S E A : Type 0} {P : S → Type 0} where
  Keeps-or_502 : (r : Result E A) → Keeps P (or_502 r)
  Keeps-or_502 (ok a) = record { at = λ s h. h }
  Keeps-or_502 (err e) = record { at = λ s h. h }

  Keeps-projected : (m : Action S E A) → Keeps P m → Keeps P (projected m)
  Keeps-projected m km = record { at = λ s h. (Keeps-or_502 (m s).0).at (m s).1 (km.at s h) }

module _ {R : Type 0} (net : Network R) (collate : String → String → Bool) (h : GrantsHandler) where
  list_grants-Keeps : {P : Tables → Type 0} (id : ℕ) → Keeps (OnTables P) (list_grants collate id)
  unfolding list_grants
  list_grants-Keeps id = Keeps-query _

  answer_grants-Keeps :
      {P : Tables → Type 0} (id : ℕ) → Keeps (OnDb (OnTables P)) (answer_grants net collate h id)
  unfolding answer_grants
  answer_grants-Keeps id = search (handler_rules, Keeps-on_db, list_grants-Keeps) depth 20

  module _ (t : Tables) (r : Request PutGrants) where
    abbrev pub Start : World R → Type 0
    Start = OnDb (OnTables (λ u. u ≡ t))

    abbrev pub Done : World R → Type 0
    Done = OnDb (OnTables (Replaced t r))

    abbrev pub Either : World R → Type 0
    Either w = Start w ⊎ Done w

    stored :
        (acct : Account) (ids : List ℕ)
        → Asked t r acct
        → AcceptedGrants t r acct ids
        → Triple {E = Exit GrantBody} Start
            (on_db (database (replace_grants acct.row.id r.now ids)))
            (λ _. Done)
            Either
    stored acct ids row accepted =
        Triple-weaken
          (Triple-on_db _ (Triple-database _ (replace_grants-granted t acct.row.id r.now ids)))
          (λ _ w k. record {
            holds = record {
              holds = record {
                acct = acct;
                ids = ids;
                asked = row;
                accepted = accepted;
                tables = k.holds.holds;
              };
            };
          })
          (λ w k. inl k)

    replace-Triple : Triple Start (replace net collate h r) (λ _. Done) Either
    unfolding replace
    replace-Triple =
        Triple-frame_bind (Asked t r) _ _ (Keeps-on_db _ (load_account-At t h r))
          (Returns-on_db _ (load_account-Asked t h r)) (λ w k. inl k)
          λ acct row.
            Triple-frame_bind (λ out. AcceptedGrants t r acct out.0) _ _
              (Keeps-on_db _ (accept_grants-At t r acct))
              (Returns-on_db _ (accept_grants-Accepted t r acct)) (λ w k. inl k)
              λ out accepted.
                Triple-bind (λ _. Done) _ _ (stored acct out.0 row accepted)
                  λ _.
                    Triple-keep _
                      (search (keeps_rules, Keeps-projected, Keeps-on_remote, answer_grants-Keeps)
                        depth 20)
                      (λ w k. inr k)

    -- What `replace` does to the grants, whatever faults occur and whatever the tenant API answers: with
    -- a response other than an error, the account with the id in the path has as its grants exactly the ids
    -- of the request without repetition, each of an active bucket and together Within the limit of the account,
    -- and nothing else of the tables has changed. With an error the tables are either unchanged or
    -- hold such grants.
    pub replace_effect :
        (w : World R) → w.db.tables ≡ t → Post (λ _. Done) Either (replace net collate h r w)
    replace_effect w e = replace-Triple.at w (record { holds = record { holds = e } })
