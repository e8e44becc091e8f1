-- ===== src/Ceph.antt =====
-- internal/ceph/client.go and the error rate of internal/ceph/parse.go. `net/http`, encoding/json and
-- floating-point numbers are parameters.
use Prim.Native.String
use osspilot_ops_api.Common.{
  ℕ, eqb, leb, String, Bool, Option, none, some, List, [], ◌∷◌, ◌==◌, if◌then◌else◌,
}
use osspilot_ops_api.Common.Decimal.{format_ℕ}
use osspilot_ops_api.Common.Text.{trim_space, trim_right}
use osspilot_ops_api.Action.{Result, ok, err, Action}
use osspilot_ops_api.TenantRbac.Remap.{Json, null, number, text, object, Fields, end, field, Codec}

-- Why `httpClient.Do` gave no answer
pub data Unanswered : Type 0 where
  timed_out unreachable : Unanswered

-- `http.Client.Do` of a GET: the status and the first MiB of the body
abbrev pub Getter : Type 0 → Type 0
Getter R = String → R → Result Unanswered (ℕ × String) × R

abbrev no_answer : Unanswered → String
no_answer timed_out = "Ceph management API request timed out"
no_answer unreachable = "Ceph management API is unreachable"

abbrev parsed : Option Json → Result String Json
parsed none = err "Ceph management API returned invalid JSON"
parsed (some v) = ok v

is_slash : ℕ → Bool
is_slash c = eqb c b'/'

module _ {R : Type 0} (get : Getter R) (codec : Codec) where
  abbrev read_answer : Result Unanswered (ℕ × String) → Result String Json
  read_answer (err e) = err (no_answer e)
  read_answer (ok (status, body)) =
      if leb 400 status
      then err (String.◌++◌ "Ceph management API returned HTTP " (format_ℕ status))
      else if trim_space body == ""
      then ok (object end)
      else parsed (codec.unmarshal body)

  -- `Fetch`, the GET of `do`
  unfoldable pub fetch : String → String → Action R String Json
  unfolding is_slash trim_space trim_right
  fetch base path r =
      let url = trim_right is_slash (trim_space base) in
      let answer = get (String.◌++◌ url path) r in
      if url == ""
      then (err "Ceph management API is not configured (set in ops system settings)", r)
      else (read_answer answer.0, answer.1)

-- `m[key]`, where null is nothing
unfoldable pub value_at : String → Fields → Option Json
value_at key end = none
value_at key (field k null fs) = let rest = value_at key fs in if k == key then none else rest
value_at key (field k v fs) = let rest = value_at key fs in if k == key then some v else rest

-- `first`
unfoldable pub first_of : List String → Fields → Option Json
unfolding value_at
first_of [] fs = none
first_of (k ∷ ks) fs =
    let rest = first_of ks fs in elim (value_at k fs) [ none ↦ rest | some v ↦ some v ]

module _ {W : Type 0} (parse : String → Option W) where
  -- `asFloat`
  unfoldable pub as_float : Option Json → Option W
  as_float (some (number s)) = parse s
  as_float (some (text s)) = parse s
  as_float _ = none

  abbrev stats_of : Fields → Option Json → Fields
  stats_of fs (some (object inner)) = inner
  stats_of fs _ = fs

  -- `parseStats`, the error rate
  unfoldable pub error_rate : Json → Option W
  unfolding as_float first_of value_at
  error_rate (object fs) = as_float (
      first_of ("error_rate" ∷ "error_ratio" ∷ "5xx_rate" ∷ []) (stats_of fs (value_at "stats" fs)))
  error_rate _ = none
