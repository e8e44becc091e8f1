-- ===== src/Regions/Deletion.antt =====
-- What `Delete` and the handler `remove` of internal/regions do to the tables.
use osspilot_ops_api.Common.{
  ℕ, eqb, ◌<◌, ◌∙◌, ltb, String, ◌≡◌, refl, sym, ap, ◌⊎◌, inl, inr, Bool, true, false, not, Option,
  none, some, arith, eqb_iff, first, first-keep, Option-cases, Bool-cases,
}
use osspilot_ops_api.Common.Decimal.{parse_id}
use osspilot_ops_api.Action.{ok}
use osspilot_ops_api.Http.{Exit}
use osspilot_ops_api.Schema.{Tables, Store}
use osspilot_ops_api.Schema.Regions.{RegionRow}
use osspilot_ops_api.Audit.{Origin}
use osspilot_ops_api.Audit.Laws.{write_entry_lem}
use osspilot_ops_api.Auth.{Request}
use osspilot_ops_api.Auth.Accounts.{User}
use osspilot_ops_api.Regions.{RegionsHandler, RegionBody, audit_region, region_id, remove}
use osspilot_ops_api.Regions.Rows.{by_region, bound_accounts, drop_region, delete_region}

-- `Delete` leaves the regions alone, or drops one that was not the default and had no account.
pub IsDeletion : ℕ → Tables → Tables → Type 0
IsDeletion id t t' =
    (t'.regions ≡ t.regions)
    ⊎ ((row : RegionRow) × (first (by_region id) t.regions.rows ≡ some row)
        × (row.is_default ≡ false)
        × (ltb 0 (bound_accounts id t) ≡ false)
        × (t'.regions ≡ (drop_region id t).regions))

module _ (id : ℕ) (s : Store) where
  delete_region-found :
      (row : RegionRow)
      → first (by_region id) s.tables.regions.rows ≡ some row
      → ((delete_region id s).1.tables.regions ≡ s.tables.regions)
        ⊎ ((row.is_default ≡ false)
            × (ltb 0 (bound_accounts id s.tables) ≡ false)
            × ((delete_region id s).1.tables.regions ≡ (drop_region id s.tables).regions))
  unfolding delete_region
  delete_region-found row found = ground arith

  pub delete_region_lem : IsDeletion id s.tables (delete_region id s).1.tables
  unfolding delete_region IsDeletion
  delete_region_lem = elim (Option-cases (first (by_region id) s.tables.regions.rows)) [
    | inl missing ↦ inl (ground arith)
    | inr (row, found) ↦ elim (delete_region-found row found) [
      | inl same ↦ inl same
      | inr (plain, free, dropped) ↦ inr (row, found, plain, free, dropped)
    ]
  ]

module _ (log : Bool) (origin : Origin) (action : String) (s : Store) where
  pub audit_region_lem :
      (user : Option User)
      → ((audit_region log origin user action s).0 ≡ ok tt)
        × ((audit_region log origin user action s).1.tables.regions ≡ s.tables.regions)
  unfolding audit_region
  audit_region_lem none = (refl, refl)
  audit_region_lem (some u) =
      let l =
        write_entry_lem (Exit RegionBody) log origin u.id u.username action "" "success" "" s in
      (l.0, l.2)

module _ {Q : Type 0} (h : RegionsHandler) (r : Request Q) (user : Option User) (s : Store) where
  remove_lem :
      (id : ℕ)
      → parse_id (r.path_value "region_id") ≡ some id
      → ((remove h r user s).1.tables.regions ≡ s.tables.regions)
        ⊎ ((remove h r user s).1.tables.regions ≡ (delete_region id s).1.tables.regions)
  unfolding remove region_id
  remove_lem id parsed =
      ground (
        arith,
        audit_region_lem h.audit r.origin "delete_storage_region" (delete_region id s).1 user,
      )

  remove-unparsed :
      parse_id (r.path_value "region_id") ≡ none
      → (remove h r user s).1.tables.regions ≡ s.tables.regions
  unfolding remove region_id
  remove-unparsed bad = ground arith

  remove-IsDeletion :
      ((remove h r user s).1.tables.regions ≡ s.tables.regions)
      ⊎ ((id : ℕ) × IsDeletion id s.tables (remove h r user s).1.tables)
  unfolding IsDeletion
  remove-IsDeletion = elim (Option-cases (parse_id (r.path_value "region_id"))) [
    | inl bad ↦ inl (remove-unparsed bad)
    | inr (id, parsed) ↦ elim (remove_lem id parsed) [
      | inl same ↦ inl same
      | inr done ↦ elim (delete_region_lem id s) [
        | inl same ↦ inl (done ∙ same)
        | inr (row, found, plain, free, dropped) ↦
            inr (id, inr (row, found, plain, free, done ∙ dropped))
      ]
    ]
  ]

-- The deletion of one region keeps a region that is the default or has an account.
IsDeletion-keeps :
    (id k : ℕ) (t t' : Tables) (row : RegionRow)
    → IsDeletion id t t'
    → first (by_region k) t.regions.rows ≡ some row
    → (row.is_default ≡ true) ⊎ (0 < bound_accounts k t)
    → first (by_region k) t'.regions.rows ≡ some row
unfolding IsDeletion
IsDeletion-keeps id k t t' row (inl same) found protected = ground arith
IsDeletion-keeps id k t t' row (inr (other, found', plain, free, dropped)) found protected =
    elim (Bool-cases (eqb k id)) [
      | inl here ↦
          let same : k ≡ id = (eqb_iff k id).0 here in
          let twice : some row ≡ some other = sym found ∙ (rw same found') in ground (arith, twice)
      | inr elsewhere ↦
          let blind =
            first-keep (by_region k) (λ x. not (by_region id x)) t.regions.rows
              (λ x e. ground (arith, elsewhere)) in
          ap (λ g. first (by_region k) g.rows) dropped ∙ blind ∙ found
    ]

module _ {Q : Type 0} (h : RegionsHandler) (r : Request Q) (user : Option User) (s : Store) where
  -- `remove` keeps every region that is the default or that a tenant account is bound to,
  -- whatever the request is and whatever fails.
  pub remove_keeps :
      (k : ℕ) (row : RegionRow)
      → first (by_region k) s.tables.regions.rows ≡ some row
      → (row.is_default ≡ true) ⊎ (0 < bound_accounts k s.tables)
      → first (by_region k) (remove h r user s).1.tables.regions.rows ≡ some row
  remove_keeps k row found protected = elim (remove-IsDeletion h r user s) [
    | inl same ↦ ground arith
    | inr (id, deletion) ↦ IsDeletion-keeps id k s.tables _ row deletion found protected
  ]
