-- ===== src/TenantRbac/Remap.antt =====
-- internal/tenantrbac/remap.go. The types of encoding/json for a text of any shape: the fields of an
-- object in some order, without a key twice.
use osspilot_ops_api.Common.{String, Bool, true, false, Option, none, some, ◌==◌, if◌then◌else◌}

mutual
  pub data Json : Type 0 where
    null : Json
    bool : Bool → Json
    -- A number, as its text
    number : String → Json
    text : String → Json
    array : Elements → Json
    object : Fields → Json

  pub data Elements : Type 0 where
    no_more : Elements
    element : Json → Elements → Elements

  pub data Fields : Type 0 where
    end : Fields
    field : String → Json → Fields → Fields

-- `_, ok := x[key]`
unfoldable pub has_key : String → Fields → Bool
has_key key end = false
has_key key (field k v fs) = if k == key then true else has_key key fs

-- `delete(x, key)`
unfoldable pub without : String → Fields → Fields
without key end = end
without key (field k v fs) = let rest = without key fs in if k == key then rest else field k v rest

-- `x[key] = v`
unfoldable pub set_key : String → Json → Fields → Fields
set_key key v end = field key v end
set_key key v (field k w fs) =
    let rest = set_key key v fs in if k == key then field k v fs else field k w rest

-- The change of one object
unfoldable pub rename : Json → Fields → Fields
unfolding has_key without set_key
rename id fs =
    if has_key "tenant_id" fs then set_key "account_id" id (without "tenant_id" fs) else fs

-- `walkRemap`: the change of an object does not depend on those of its children, which are
-- made after it in the code and before it here.
unfoldable mutual
  pub walk_remap : Json → Json → Json
  walk_remap id (array es) = array (walk_elements id es)
  walk_remap id (object fs) = object (rename id (walk_fields id fs))
  walk_remap id v = v

  pub walk_elements : Json → Elements → Elements
  walk_elements id no_more = no_more
  walk_elements id (element v es) = element (walk_remap id v) (walk_elements id es)

  pub walk_fields : Json → Fields → Fields
  walk_fields id end = end
  walk_fields id (field k v fs) = field k (walk_remap id v) (walk_fields id fs)

-- `json.Unmarshal` and `json.Marshal`, where `none` is an error
pub record Codec : Type 0 where
  pub unmarshal : String → Option Json
  pub marshal : Json → Option String

abbrev remapped : Codec → Json → String → Option Json → Option String
remapped codec id raw none = some raw
remapped codec id raw (some v) = codec.marshal (walk_remap id v)

-- `remapAccountID`; `none` is an error.
unfoldable pub remap_account_id : Codec → String → Json → Option String
unfolding walk_remap
remap_account_id codec raw id =
    if raw == "" then some raw else remapped codec id raw (codec.unmarshal raw)
