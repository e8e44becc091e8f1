-- ===== src/Grants/Requests/Effect.antt =====
-- What `replace` of internal/grants does to the grants.
use osspilot_ops_api.Common.{
  ℕ, eqb, ◌≡◌, ap, inl, inr, Bool, true, false, not, ◌&&◌, some, List, [], ◌∷◌, map, any, keep,
  first, All, length, ◌==◌, arith, Option-cases, ◌∙◌,
}
use mathlib.Core.Path.{subst}
use osspilot_ops_api.Common.Decimal.{parse_id}
use osspilot_ops_api.Action.{require}
use osspilot_ops_api.Action.Keeps.{
  Keeps, Returns, Keeps-require, Keeps-guard, Returns-bind, Returns-bind_any, Returns-pure,
  Returns-require, Returns-guard,
}
use osspilot_ops_api.Database.Keeps.{Keeps-query, Returns-query}
use osspilot_ops_api.Http.{reply, error}
use osspilot_ops_api.Http.Keeps.{handler_rules, Keeps-database, Returns-database}
use osspilot_ops_api.Schema.{Tables}
use osspilot_ops_api.Schema.Tenants.{BucketRow}
use osspilot_ops_api.Auth.{Request}
use osspilot_ops_api.Accounts.Rows.{Account}
use osspilot_ops_api.Accounts.Lookup.{At, get_account-At, Asked, FoundAt, get_account-FoundAt}
use osspilot_ops_api.Buckets.Rows.{Bucket, get_buckets, scan_bucket}
use osspilot_ops_api.Grants.{unique_ids, exceeds_limit}
use osspilot_ops_api.Grants.Requests.{
  GrantsHandler, PutGrants, load_account, accept_grants, missing_ids, is_usable, is_none,
}

-- A bucket of the table that may be granted.
abbrev pub is_active : ℕ → BucketRow → Bool
is_active id b = eqb b.id id && b.status == "active"

usable_in_table :
    (t : Tables) (id : ℕ) (wanted : BucketRow → Bool) (bs : List BucketRow) (b : Bucket)
    → first (is_usable id) (map (scan_bucket t) (keep wanted bs)) ≡ some b
    → any (is_active id) bs ≡ true
unfolding scan_bucket
usable_in_table t id wanted [] b e = cc
usable_in_table t id wanted (x ∷ bs) b e = ground (arith, usable_in_table t id wanted bs b)

usable_ids :
    (found : List Bucket) (p : ℕ → Bool) (ids : List ℕ)
    → ((id : ℕ) (b : Bucket) → first (is_usable id) found ≡ some b → p id ≡ true)
    → is_none (missing_ids found ids) ≡ true
    → All (λ id. p id ≡ true) ids
unfolding missing_ids
usable_ids found p [] each none_missing = tt
usable_ids found p (id ∷ ids) each none_missing = elim (Option-cases (first (is_usable id) found)) [
  | inl unknown ↦ ground arith
  | inr (b, good) ↦ (each id b good, usable_ids found p ids each (ground arith))
]

-- The parts of `replace` before its transaction only read the tables `t`.
module _ (t : Tables) where
  get_buckets-At : (ids : List ℕ) → Keeps (At t) (get_buckets ids)
  unfolding get_buckets
  get_buckets-At [] = record { at = λ s h. h }
  get_buckets-At (id ∷ ids) = Keeps-query _

  pub load_account-At :
      {Q : Type 0} (h : GrantsHandler) (r : Request Q) → Keeps (At t) (load_account h r)
  unfolding load_account
  load_account-At h r = search (handler_rules, get_account-At) depth 20

  pub accept_grants-At :
      (r : Request PutGrants) (acct : Account) → Keeps (At t) (accept_grants r acct)
  unfolding accept_grants
  accept_grants-At r acct = search (handler_rules, get_buckets-At) depth 20

  pub load_account-Asked :
      {Q : Type 0} (h : GrantsHandler) (r : Request Q)
      → Returns (At t) (Asked t r) (load_account h r)
  unfolding load_account
  load_account-Asked h r =
      Returns-bind (λ id. parse_id (r.path_value "user_id") ≡ some id) _ _
        (Keeps-require (reply (error 400 "invalid user_id")) (parse_id (r.path_value "user_id")))
        (Returns-require _ _ (λ a e. e))
        λ id parsed.
          Returns-bind_any _ _
            (Keeps-guard (h.store && h.accounts) (reply (error 503 "database is not configured")))
            λ _.
              Returns-bind (FoundAt t id) _ (require (reply (error 404 "Account not found")))
                (Keeps-database _ (get_account-At t id))
                (Returns-database _ (get_account-FoundAt t id))
                λ found at.
                  Returns-require (reply (error 404 "Account not found")) found
                    (λ acct e. record { id = id; parsed = parsed; row = at.row acct e })

  -- What `replace` has checked when it calls `Replace`.
  pub record AcceptedGrants (r : Request PutGrants) (acct : Account) (ids : List ℕ) : Type 0 where
    pub req : PutGrants
    pub body : r.body ≡ some req
    pub unique : unique_ids req.bucket_ids ≡ some ids
    pub within_limit : exceeds_limit (length ids) acct.row.bucket_limit ≡ false
    pub active : All (λ id. any (is_active id) t.tenants.buckets ≡ true) ids

  get_buckets-usable :
      (ids : List ℕ)
      → Returns
          (At t)
          (λ (found : List Bucket).
            (id : ℕ) (b : Bucket)
            → first (is_usable id) found ≡ some b
            → any (is_active id) t.tenants.buckets ≡ true)
          (get_buckets ids)
  unfolding get_buckets
  get_buckets-usable [] = record { result = λ s h found e id b q. ground arith }
  get_buckets-usable (x ∷ ids) = Returns-query _ λ u same found e id b q.
      let here : map (scan_bucket u)
            (keep (λ (c : BucketRow). any (eqb c.id) (x ∷ ids)) u.tenants.buckets)
          ≡ found =
        ground arith in
      subst (λ (v : Tables). any (is_active id) v.tenants.buckets ≡ true) same
        (usable_in_table u id (λ c. any (eqb c.id) (x ∷ ids)) u.tenants.buckets b
          (ap (first (is_usable id)) here ∙ q))

  pub accept_grants-Accepted :
      (r : Request PutGrants) (acct : Account)
      → Returns
          (At t)
          (λ (out : List ℕ × List Bucket). AcceptedGrants r acct out.0)
          (accept_grants r acct)
  unfolding accept_grants
  accept_grants-Accepted r acct =
      Returns-bind (λ req. r.body ≡ some req) _ _ (Keeps-require _ _)
        (Returns-require _ _ (λ a e. e))
        λ req body.
          Returns-bind (λ ids. unique_ids req.bucket_ids ≡ some ids) _ _ (Keeps-require _ _)
            (Returns-require _ _ (λ a e. e))
            λ ids unique.
              Returns-bind (λ _. not (exceeds_limit (length ids) acct.row.bucket_limit) ≡ true) _ _
                (Keeps-guard _ _) (Returns-guard _ _)
                λ _ Within.
                  Returns-bind _ _ _ (Keeps-database _ (get_buckets-At ids))
                    (Returns-database _ (get_buckets-usable ids))
                    λ found usable.
                      Returns-bind (λ _. is_none (missing_ids found ids) ≡ true) _ _
                        (Keeps-guard _ _) (Returns-guard _ _)
                        λ _ complete. Returns-pure _ (record {
                          req = req;
                          body = body;
                          unique = unique;
                          within_limit = ground arith;
                          active =
                              usable_ids found (λ id. any (is_active id) t.tenants.buckets) ids
                                usable complete;
                        })
