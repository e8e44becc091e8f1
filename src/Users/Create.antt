-- ===== src/Users/Create.antt =====
-- What `create` and `resetPassword` may do to the operators.
use osspilot_ops_api.Common.{
  ℕ, String, ◌≡◌, ◌⊎◌, inl, inr, true, false, some, List, arith, ◌==◌, any, Option-cases,
}
use osspilot_ops_api.Common.Text.{trim_space}
use osspilot_ops_api.Common.Decimal.{parse_id}
use osspilot_ops_api.Action.{Result-cases, ok}
use osspilot_ops_api.Http.{Exit}
use osspilot_ops_api.Schema.{Store}
use osspilot_ops_api.Schema.Ops.{OpsUser}
use osspilot_ops_api.Crypto.{Crypto}
use osspilot_ops_api.Audit.Laws.{write_entry_lem}
use osspilot_ops_api.Auth.{Request}
use osspilot_ops_api.Auth.Accounts.{User, update_where}
use osspilot_ops_api.Users.{
  UsersHandler, CreateRequest, PasswordResetRequest, Body, empty_to_nil, bool_or, path_id, create,
  reset_password,
}
use osspilot_ops_api.Users.Roles.{normalize_roles}
use osspilot_ops_api.Users.Accounts.{insert, new_row, add_row, columns_fit, get_record, reset_hash}
use osspilot_ops_api.Users.Writes.{with_roles, tables-insert, tables-get_record, tables-reset_hash}

module _ (c : Crypto) (h : UsersHandler) (actor : User) (s : Store) where
  module _ (r : Request CreateRequest) where
    -- The row that `create` inserts for a request.
    abbrev pub row_for : CreateRequest → String → OpsUser
    row_for req hash =
        new_row (trim_space req.username) hash (empty_to_nil req.display_name)
          (empty_to_nil req.email) (empty_to_nil req.phone) (bool_or req.must_change_password true)
          r.now s.tables.next_user_id

    create_writes :
        (req : CreateRequest) (roles : List String) (hash : String)
        → r.body ≡ some req
        → normalize_roles req.ops_roles ≡ ok roles
        → c.generate r.salt req.password ≡ some hash
        → ((create c h r actor s).1.tables.ops ≡ s.tables.ops)
          ⊎ ((columns_fit (row_for req hash) ≡ true)
              × (any (λ x. x.username == trim_space req.username) s.tables.users ≡ false)
              × ((create c h r actor s).1.tables.ops
                  ≡ (with_roles s.tables.next_user_id roles
                      (add_row (row_for req hash) s.tables)).ops))
    unfolding create
    create_writes req roles hash body known hashed =
        let must = bool_or req.must_change_password true in
        let insertion =
          insert (trim_space req.username) hash (empty_to_nil req.display_name)
            (empty_to_nil req.email) (empty_to_nil req.phone) roles must r.now s in
        ground (
          arith,
          tables-insert s (trim_space req.username) hash (empty_to_nil req.display_name)
              (empty_to_nil req.email) (empty_to_nil req.phone) must r.now roles,
          write_entry_lem (Exit Body) h.audit r.origin actor.id actor.username "user_create" ""
              "success" "" insertion.1,
        )

    -- Whatever the request and the faults, `create` leaves the operators as they were, or it adds
    -- one row, whose user name no other row has, with normalized roles.
    pub create_effect :
        ((create c h r actor s).1.tables.ops ≡ s.tables.ops)
        ⊎ ((req : CreateRequest) × (roles : List String) × (hash : String) × (normalize_roles
                req.ops_roles
              ≡ ok roles)
            × (c.generate r.salt req.password ≡ some hash)
            × (any (λ x. x.username == trim_space req.username) s.tables.users ≡ false)
            × ((create c h r actor s).1.tables.ops
                ≡ (with_roles s.tables.next_user_id roles
                    (add_row (row_for req hash) s.tables)).ops))
    unfolding create
    create_effect = elim (Option-cases r.body) [
      | inl unread ↦ inl (ground arith)
      | inr (req, body) ↦ elim (Result-cases (normalize_roles req.ops_roles)) [
        | inr (e, bad) ↦ inl (ground arith)
        | inl (roles, known) ↦ elim (Option-cases (c.generate r.salt req.password)) [
          | inl failed ↦ inl (ground arith)
          | inr (hash, hashed) ↦ elim (create_writes req roles hash body known hashed) [
            | inl same ↦ inl same
            | inr (fit, fresh, wrote) ↦ inr (req, roles, hash, known, hashed, fresh, wrote)
          ]
        ]
      ]
    ]

  module _ (r : Request PasswordResetRequest) where
    -- The row after a reset of its password.
    abbrev pub with_hash : String → OpsUser → OpsUser
    with_hash hash u = record u { password_hash = hash; updated_at = r.now }

    reset_writes :
        (id : ℕ) (req : PasswordResetRequest) (hash : String)
        → parse_id (r.path_value "user_id") ≡ some id
        → r.body ≡ some req
        → c.generate r.salt req.new_password ≡ some hash
        → ((reset_password c h r actor s).1.tables.ops ≡ s.tables.ops)
          ⊎ ((reset_password c h r actor s).1.tables.ops
              ≡ (update_where id (with_hash hash) s.tables).ops)
    unfolding reset_password path_id
    reset_writes id req hash good body hashed =
        let s' = (get_record id s).1 in
        ground (
          arith,
          tables-get_record s id,
          tables-reset_hash s' id r.now hash,
          write_entry_lem (Exit Body) h.audit r.origin actor.id actor.username "user_password_reset"
              "" "success" "" (reset_hash id hash r.now s').1,
        )

    -- Whatever the request and the faults, `resetPassword` leaves the operators as they were, or
    -- it writes a new hash of the given password to the rows with the given id.
    pub reset_effect :
        ((reset_password c h r actor s).1.tables.ops ≡ s.tables.ops)
        ⊎ ((id : ℕ) × (req : PasswordResetRequest) × (hash : String) × (c.generate r.salt
                req.new_password
              ≡ some hash)
            × ((reset_password c h r actor s).1.tables.ops
                ≡ (update_where id (with_hash hash) s.tables).ops))
    unfolding reset_password path_id
    reset_effect = elim (Option-cases (parse_id (r.path_value "user_id"))) [
      | inl bad ↦ inl (ground arith)
      | inr (id, good) ↦ elim (Option-cases r.body) [
        | inl unread ↦ inl (ground arith)
        | inr (req, body) ↦ elim (Option-cases (c.generate r.salt req.new_password)) [
          | inl failed ↦ inl (ground (arith, tables-get_record s id))
          | inr (hash, hashed) ↦ elim (reset_writes id req hash good body hashed) [
            | inl same ↦ inl same
            | inr wrote ↦ inr (id, req, hash, hashed, wrote)
          ]
        ]
      ]
    ]
