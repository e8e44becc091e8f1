-- ===== src/Regions/Codes.antt =====
-- When `Insert` and the handler `create` of internal/regions report a conflict.
use osspilot_ops_api.Common.{
  ℕ, String, ◌≡◌, refl, sym, ◌⊎◌, inl, inr, Bool, true, false, Option, some, List, [], ◌∷◌, arith,
  ◌==◌, any,
}
use osspilot_ops_api.Common.Text.{trim_space}
use osspilot_ops_api.Action.{Result-cases, err}
use osspilot_ops_api.Database.{unique_violation, no_rows, broken}
use osspilot_ops_api.Database.Laws.{transaction-refused}
use osspilot_ops_api.Http.{error, reply}
use osspilot_ops_api.Schema.{Tables, Store}
use osspilot_ops_api.Schema.Regions.{RegionRow}
use osspilot_ops_api.Auth.{Request}
use osspilot_ops_api.Auth.Accounts.{User}
use osspilot_ops_api.Regions.{
  RegionsHandler, CreateRegion, create, store_new, new_region, or_default,
}
use osspilot_ops_api.Regions.Rows.{
  clear_defaults, insert_region_row, insert_region, insert_body, with_rows,
}
use osspilot_ops_api.Regions.Deletion.{audit_region_lem}

any_code-clear_defaults :
    (code : String) (rows : List RegionRow)
    → any (λ x. x.code == code) (clear_defaults rows) ≡ any (λ x. x.code == code) rows
any_code-clear_defaults code [] = refl
any_code-clear_defaults code (r ∷ rows) = ground (arith, any_code-clear_defaults code rows)

any_default-clear_defaults :
    (rows : List RegionRow) → any (λ x. x.is_default) (clear_defaults rows) ≡ false
any_default-clear_defaults [] = refl
any_default-clear_defaults (r ∷ rows) = ground (arith, any_default-clear_defaults rows)

insert_region_row_conflict :
    (row : ℕ → RegionRow) (t : Tables)
    → (insert_region_row row t).0 ≡ err unique_violation
    → (any (λ x. x.code == (row t.regions.next_region_id).code) t.regions.rows ≡ true)
      ⊎ (((row t.regions.next_region_id).is_default ≡ true)
          × (any (λ x. x.is_default) t.regions.rows ≡ true))
unfolding insert_region_row
insert_region_row_conflict row t e = ground arith

module _ (is_default : Bool) (row : ℕ → RegionRow) (s : Store)
    (same : (n : ℕ) → (row n).is_default ≡ is_default) where
  -- Inside the transaction, the row is refused by the table as it is or without its defaults.
  insert_body_refused :
      (start : Store)
      → (insert_body is_default row start).0 ≡ err unique_violation
      → ((is_default ≡ false) × ((insert_region_row row start.tables).0 ≡ err unique_violation))
        ⊎ ((insert_region_row row (with_rows clear_defaults start.tables)).0 ≡ err unique_violation)
  unfolding insert_body
  insert_body_refused start e = ground arith

  insert_region_refused :
      (insert_region is_default row s).0 ≡ err unique_violation
      → ((is_default ≡ false) × ((insert_region_row row s.tables).0 ≡ err unique_violation))
        ⊎ ((insert_region_row row (with_rows clear_defaults s.tables)).0 ≡ err unique_violation)
  unfolding insert_region
  insert_region_refused e =
      let (start, same_tables, refused) = transaction-refused (insert_body is_default row) s e in
      rw (sym same_tables) (insert_body_refused start refused)

  -- The two unique indexes refuse an insertion only for the code: the other defaults are cleared.
  pub insert_region_conflict :
      (insert_region is_default row s).0 ≡ err unique_violation
      → any (λ x. x.code == (row s.tables.regions.next_region_id).code) s.tables.regions.rows ≡ true
  insert_region_conflict e =
      let n = s.tables.regions.next_region_id in
      elim (insert_region_refused e) [
        | inl (plain, direct) ↦
            ground (arith, insert_region_row_conflict row s.tables direct, same n)
        | inr cleared ↦ ground (
          arith,
          insert_region_row_conflict row (with_rows clear_defaults s.tables) cleared,
          any_code-clear_defaults (row n).code s.tables.regions.rows,
          any_default-clear_defaults s.tables.regions.rows,
        )
      ]

module _ (h : RegionsHandler) (r : Request CreateRegion) (user : Option User) (s : Store) where
  store_new_conflict :
      (code : String) (is_default : Bool) (row : ℕ → RegionRow) (detail : String)
      → (store_new h r user code is_default row s).0 ≡ err (reply (error 409 detail))
      → (insert_region is_default row s).0 ≡ err unique_violation
  unfolding store_new
  store_new_conflict code is_default row detail e =
      elim (Result-cases (insert_region is_default row s).0) [
        | inl (out, good) ↦ ground (
          arith,
          audit_region_lem h.audit r.origin "create_storage_region"
              (insert_region is_default row s).1 user,
        )
        | inr (unique_violation, bad) ↦ bad
        | inr (no_rows, bad) ↦ ground arith
        | inr (broken, bad) ↦ ground arith
      ]

  -- What `create` stores
  abbrev stored_row : (String → String) → CreateRegion → ℕ → RegionRow
  stored_row to_lower req =
      new_region (to_lower (trim_space req.code)) (trim_space req.name) (trim_space req.s3_endpoint)
        (or_default req.s3_region_name "us-east-1") req.is_default (or_default req.status "active")
        r.now

  create-stored :
      (to_lower : String → String) (req : CreateRegion) (detail : String)
      → r.body ≡ some req
      → (create to_lower h r user s).0 ≡ err (reply (error 409 detail))
      → (store_new h r user
          (to_lower (trim_space req.code))
          req.is_default
          (stored_row to_lower req)
          s).0
        ≡ err (reply (error 409 detail))
  unfolding create
  create-stored to_lower req detail body e = ground arith

  -- Where `create` answers with status 409, a region already has the code of the request,
  -- trimmed and in lower case: no other constraint of the table is reported as a conflict.
  pub create_conflict :
      (to_lower : String → String) (req : CreateRegion) (detail : String)
      → r.body ≡ some req
      → (create to_lower h r user s).0 ≡ err (reply (error 409 detail))
      → any (λ x. x.code == to_lower (trim_space req.code)) s.tables.regions.rows ≡ true
  create_conflict to_lower req detail body e =
      insert_region_conflict req.is_default (stored_row to_lower req) s (λ n. refl)
        (store_new_conflict (to_lower (trim_space req.code)) req.is_default
          (stored_row to_lower req) detail (create-stored to_lower req detail body e))
