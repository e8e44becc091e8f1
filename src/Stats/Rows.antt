-- ===== src/Stats/Rows.antt =====
-- internal/stats/store.go: the tenants
use osspilot_ops_api.Common.{leb, List, [], ◌∷◌, if◌then◌else◌}
use osspilot_ops_api.Action.{ok, Action}
use osspilot_ops_api.Database.{DbError, query}
use osspilot_ops_api.Schema.{Store}
use osspilot_ops_api.Schema.Tenants.{AccountRow}

unfoldable pub insert_tenant_by_id : AccountRow → List AccountRow → List AccountRow
insert_tenant_by_id a [] = a ∷ []
insert_tenant_by_id a (x ∷ xs) =
    let later = insert_tenant_by_id a xs in if leb a.id x.id then a ∷ x ∷ xs else x ∷ later

-- ORDER BY id
unfoldable pub order_tenants : List AccountRow → List AccountRow
unfolding insert_tenant_by_id
order_tenants [] = []
order_tenants (a ∷ rest) = insert_tenant_by_id a (order_tenants rest)

-- `Tenants`, with the whole rows
unfoldable pub tenants : Action Store DbError (List AccountRow)
unfolding query order_tenants
tenants = query (λ t. ok (order_tenants t.tenants.accounts))
