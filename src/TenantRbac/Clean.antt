-- ===== src/TenantRbac/Clean.antt =====
-- What the remapping of internal/tenantrbac does to the keys of a text.
use osspilot_ops_api.Common.{
  String, ◌≡◌, refl, ap, ◌∙◌, Bool, true, false, arith, eq_iff, ◌==◌, if◌then◌else◌, inl, inr,
  Bool-cases,
}
use osspilot_ops_api.TenantRbac.Remap.{
  Json, null, bool, number, text, array, object, Elements, no_more, element, Fields, end, field,
  has_key, without, set_key, rename, walk_remap, walk_elements, walk_fields,
}

-- No object in the value has the key `tenant_id`.
unfoldable mutual
  pub Clean : Json → Type 0
  Clean (array es) = CleanElements es
  Clean (object fs) = (has_key "tenant_id" fs ≡ false) × CleanFields fs
  Clean v = Unit

  pub CleanElements : Elements → Type 0
  CleanElements no_more = Unit
  CleanElements (element v es) = Clean v × CleanElements es

  pub CleanFields : Fields → Type 0
  CleanFields end = Unit
  CleanFields (field k v fs) = Clean v × CleanFields fs

has_key-without : (key : String) (fs : Fields) → has_key key (without key fs) ≡ false
unfolding has_key without
has_key-without key end = refl
has_key-without key (field k v fs) = ground (arith, has_key-without key fs)

has_key-set_key :
    (key other : String) (v : Json) (fs : Fields)
    → (other == key) ≡ false
    → has_key key (set_key other v fs) ≡ has_key key fs
unfolding has_key set_key
has_key-set_key key other v end h = ground (arith, h)
has_key-set_key key other v (field k w fs) h = elim (Bool-cases (k == other)) [
  | inl same ↦ ground (arith, (eq_iff k other).0 same, same)
  | inr differs ↦ ground (arith, differs, has_key-set_key key other v fs h)
]

if-Clean :
    (test : Bool) (fs gs : Fields)
    → CleanFields fs
    → CleanFields gs
    → CleanFields (if test then fs else gs)
if-Clean true fs gs h k = h
if-Clean false fs gs h k = k

without-Clean : (key : String) (fs : Fields) → CleanFields fs → CleanFields (without key fs)
unfolding without CleanFields
without-Clean key end h = tt
without-Clean key (field k v fs) (hv, h) =
    let rest = without-Clean key fs h in
    if-Clean (k == key) (without key fs) (field k v (without key fs)) rest (hv, rest)

set_key-Clean :
    (key : String) (v : Json) (fs : Fields)
    → Clean v
    → CleanFields fs
    → CleanFields (set_key key v fs)
unfolding set_key CleanFields
set_key-Clean key v end hv h = (hv, tt)
set_key-Clean key v (field k w fs) hv (hw, h) =
    if-Clean (k == key) (field k v fs) (field k w (set_key key v fs)) (hv, h)
      (hw, set_key-Clean key v fs hv h)

rename-Clean : (id : Json) (fs : Fields) → Clean id → CleanFields fs → Clean (object (rename id fs))
unfolding rename Clean
rename-Clean id fs hi h = elim (Bool-cases (has_key "tenant_id" fs)) [
  | inl has ↦ rw has (
    has_key-set_key "tenant_id" "account_id" id (without "tenant_id" fs) refl
        ∙ has_key-without "tenant_id" fs,
    set_key-Clean "account_id" id (without "tenant_id" fs) hi (without-Clean "tenant_id" fs h),
  )
  | inr lacks ↦ rw lacks (lacks, h)
]

module _ (id : Json) (hi : Clean id) where
  mutual
    unfolding walk_remap Clean

    walk_remap-Clean : (v : Json) → Clean (walk_remap id v)
    walk_remap-Clean null = tt
    walk_remap-Clean (bool b) = tt
    walk_remap-Clean (number n) = tt
    walk_remap-Clean (text s) = tt
    walk_remap-Clean (array es) = walk_elements-Clean es
    walk_remap-Clean (object fs) = rename-Clean id (walk_fields id fs) hi (walk_fields-Clean fs)

    walk_elements-Clean : (es : Elements) → CleanElements (walk_elements id es)
    walk_elements-Clean no_more = tt
    walk_elements-Clean (element v es) = (walk_remap-Clean v, walk_elements-Clean es)

    walk_fields-Clean : (fs : Fields) → CleanFields (walk_fields id fs)
    walk_fields-Clean end = tt
    walk_fields-Clean (field k v fs) = (walk_remap-Clean v, walk_fields-Clean fs)

  mutual
    unfolding walk_remap Clean rename

    walk_remap-eq : (v : Json) → Clean v → walk_remap id v ≡ v
    walk_remap-eq null h = refl
    walk_remap-eq (bool b) h = refl
    walk_remap-eq (number n) h = refl
    walk_remap-eq (text s) h = refl
    walk_remap-eq (array es) h = ap array (walk_elements-eq es h)
    walk_remap-eq (object fs) (lacks, h) = rw (walk_fields-eq fs h) (rw lacks refl)

    walk_elements-eq : (es : Elements) → CleanElements es → walk_elements id es ≡ es
    walk_elements-eq no_more h = refl
    walk_elements-eq (element v es) (hv, h) =
        rw (walk_remap-eq v hv) (rw (walk_elements-eq es h) refl)

    walk_fields-eq : (fs : Fields) → CleanFields fs → walk_fields id fs ≡ fs
    walk_fields-eq end h = refl
    walk_fields-eq (field k v fs) (hv, h) = rw (walk_remap-eq v hv) (rw (walk_fields-eq fs h) refl)

-- Where the account id is a number: a remapped text has no object with the key `tenant_id`, at any
-- depth, and a text that has none already is left as it is, so that remapping it again changes nothing.
pub walk_remap_lem :
    (id : String) (v : Json)
    → Clean (walk_remap (number id) v)
      × (Clean v → walk_remap (number id) v ≡ v)
      × (walk_remap (number id) (walk_remap (number id) v) ≡ walk_remap (number id) v)
unfolding Clean
walk_remap_lem id v =
    let clean = walk_remap-Clean (number id) tt v in
    (
      clean,
      walk_remap-eq (number id) tt v,
      walk_remap-eq (number id) tt (walk_remap (number id) v) clean,
    )
