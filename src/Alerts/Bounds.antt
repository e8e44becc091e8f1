-- ===== src/Alerts/Bounds.antt =====
-- The lists of events that internal/alerts answers.
use osspilot_ops_api.Common.{
  ℕ, suc, zero, leb, ◌≤◌, ◌^◌, String, ◌≡◌, Bool, true, false, Option, none, some, List, [], ◌∷◌,
  keep, take, length, All, arith, ◌==◌, ◌||◌, ◌⊎◌, if◌then◌else◌, inl, inr, Bool-cases,
  Option-cases, ◌-◌,
}
use mathlib.Core.Path.{subst}
use text.Mathlib.TextEquality.{eq_iff}
use osspilot_ops_api.Common.Decimal.{parse_id}
use osspilot_ops_api.Action.{ok, err, Action, guard}
use osspilot_ops_api.Action.Keeps.{
  Keeps, Returns, Returns-bind, Returns-bind_any, Returns-pure, Returns-guard,
}
use osspilot_ops_api.Database.{broken, query}
use osspilot_ops_api.Database.Keeps.{OnTables, Returns-query}
use osspilot_ops_api.Http.{Response, json, error, reply, database}
use osspilot_ops_api.Http.Keeps.{Returns-database}
use osspilot_ops_api.Schema.{Tables, Store}
use osspilot_ops_api.Schema.Alerts.{EventRow}
use osspilot_ops_api.Auth.{Request}
use osspilot_ops_api.Alerts.{
  AlertBody, event_items, list_event_items, query_number, query_tenant, ready, bounded,
}
use osspilot_ops_api.Alerts.Events.{
  later, equals, insert_event_by_time, order_events, skip, event_where, offset, page_of,
  list_events,
}

length-take : (n : ℕ) (es : List EventRow) → length (take n es) ≤ n
length-take zero es = ground arith
length-take (suc n) [] = ground arith
length-take (suc n) (e ∷ es) = ground (arith, length-take n es)

module _ (P : EventRow → Type 0) where
  All-take : (n : ℕ) (es : List EventRow) → All P es → All P (take n es)
  All-take zero es h = tt
  All-take (suc n) [] h = tt
  All-take (suc n) (e ∷ es) (h, hs) = (h, All-take n es hs)

  All-skip : (n : ℕ) (es : List EventRow) → All P es → All P (skip n es)
  All-skip zero es h = h
  All-skip (suc n) [] h = tt
  All-skip (suc n) (e ∷ es) (h, hs) = All-skip n es hs

  if-All :
      (test : Bool) (xs ys : List EventRow) → All P xs → All P ys → All P (if test then xs else ys)
  if-All true xs ys h k = h
  if-All false xs ys h k = k

  insert-All :
      (e : EventRow) (es : List EventRow) → P e → All P es → All P (insert_event_by_time e es)
  unfolding insert_event_by_time
  insert-All e [] k h = (k, tt)
  insert-All e (x ∷ xs) k (h, hs) =
      if-All (later e x) (e ∷ x ∷ xs) (x ∷ insert_event_by_time e xs) (k, (h, hs))
        (h, insert-All e xs k hs)

  order-All : (es : List EventRow) → All P es → All P (order_events es)
  unfolding order_events
  order-All [] h = tt
  order-All (e ∷ es) (h, hs) = insert-All e (order_events es) h (order-All es hs)

-- For the tenant that is asked for, where one is
abbrev pub OfTenant : Option ℕ → EventRow → Type 0
OfTenant none e = Unit {0}
OfTenant (some id) e = e.tenant_id ≡ some id

-- With the status and for the tenant that are asked for, where these are given
abbrev pub IsAsked : String → Option ℕ → EventRow → Type 0
IsAsked status tenant_id e = ((status ≡ "") ⊎ (e.status ≡ status)) × OfTenant tenant_id e

-- At most so many events, all of the status and the tenant that are asked for
abbrev pub PageOf : String → Option ℕ → ℕ → List EventRow → Type 0
PageOf status tenant_id limit es = (length es ≤ limit) × All (IsAsked status tenant_id) es

or_given : (a b : Bool) → (a || b) ≡ true → a ≡ false → b ≡ true
or_given true b h k = cc
or_given false b h k = h

status_asked :
    (status : String) (e : EventRow)
    → (status == "" || e.status == status) ≡ true
    → (status ≡ "") ⊎ (e.status ≡ status)
status_asked status e h = elim (Bool-cases (status == "")) [
  | inl empty ↦ inl ((eq_iff status "").0 empty)
  | inr given ↦
      let same = or_given (status == "") (e.status == status) h given in
      inr ((eq_iff e.status status).0 same)
]

equals-eq : (o : Option ℕ) (id : ℕ) → equals o id ≡ true → o ≡ some id
equals-eq none id h = cc
equals-eq (some n) id h = ground arith

event_where-IsAsked :
    (status : String) (tenant_id : Option ℕ) (e : EventRow)
    → event_where status tenant_id e ≡ true
    → IsAsked status tenant_id e
event_where-IsAsked status none e h = (status_asked status e h, tt)
event_where-IsAsked status (some id) e h =
    (status_asked status e (ground (arith, h)), equals-eq e.tenant_id id (ground (arith, h)))

keep-IsAsked :
    (status : String) (tenant_id : Option ℕ) (es : List EventRow)
    → All (IsAsked status tenant_id) (keep (event_where status tenant_id) es)
keep-IsAsked status tenant_id [] = tt
keep-IsAsked status tenant_id (e ∷ es) = elim (Bool-cases (event_where status tenant_id e)) [
  | inl good ↦
      rw good (event_where-IsAsked status tenant_id e good, keep-IsAsked status tenant_id es)
  | inr bad ↦ rw bad (keep-IsAsked status tenant_id es)
]

if-eq-ok :
    (test : Bool) (rows out : List EventRow)
    → (if test then ok rows else err broken) ≡ ok out
    → out ≡ rows
if-eq-ok true rows out e = ground arith
if-eq-ok false rows out e = cc

-- No condition on the tables
abbrev Any : Store → Type 0
Any = OnTables (λ (t : Tables). Unit {0})

Keeps-Any : {E A : Type 0} (m : Action Store E A) → Keeps Any m
Keeps-Any m = record { at = λ s h. record { holds = tt } }

module _ (status : String) (tenant_id : Option ℕ) where
  page_of-PageOf :
      (page page_size : ℕ) (es out : List EventRow)
      → page_of page page_size (order_events (keep (event_where status tenant_id) es)) ≡ ok out
      → PageOf status tenant_id page_size out
  unfolding page_of
  page_of-PageOf page page_size es out e =
      let found : List EventRow = order_events (keep (event_where status tenant_id) es) in
      let matching = order-All (IsAsked status tenant_id) _ (keep-IsAsked status tenant_id es) in
      rw (if-eq-ok _ (take page_size (skip (offset page page_size) found)) out e) (
        length-take page_size (skip (offset page page_size) found),
        All-take (IsAsked status tenant_id) page_size _
            (All-skip (IsAsked status tenant_id) (offset page page_size) found matching),
      )

  list_events-PageOf :
      (page page_size : ℕ)
      → Returns Any
          (λ out. PageOf status tenant_id page_size out.0)
          (list_events status tenant_id page page_size)
  unfolding list_events
  list_events-PageOf page page_size =
      Returns-bind_any
        (query (λ t. ok (length (keep (event_where status tenant_id) t.alerts.events)))) _
        (Keeps-Any _)
        λ total.
          Returns-bind (PageOf status tenant_id page_size)
            (query (λ t.
              page_of page page_size
                (order_events (keep (event_where status tenant_id) t.alerts.events))))
            _ (Keeps-Any _)
            (Returns-query _ λ t h rows e. page_of-PageOf page page_size t.alerts.events rows e)
            λ rows good. Returns-pure (rows, total) good

-- The tenant of the query, where there is one
abbrev pub asked_tenant : String → Option ℕ
asked_tenant raw = if raw == "" then none else parse_id raw

-- A page of the events: at most so many, with the status and for the tenant
abbrev pub IsPage : String → Option ℕ → ℕ → Response AlertBody → Type 0
IsPage status tenant_id limit (json code (event_items es total)) = PageOf status tenant_id limit es
IsPage status tenant_id limit _ = ⊥

at_most :
    {limit n : ℕ} (status : String) (tenant_id : Option ℕ) (es : List EventRow)
    → n ≤ limit
    → PageOf status tenant_id n es
    → PageOf status tenant_id limit es
at_most status tenant_id es small (h, k) = (ground arith, k)

module _ {E A : Type 0} {Q : A → Type 0} where
  Returns-if :
      (test : Bool) (m n : Action Store E A)
      → Returns Any Q m
      → Returns Any Q n
      → Returns Any Q (if test then m else n)
  Returns-if true m n km kn = km
  Returns-if false m n km kn = kn

module _ (store : Bool) {Q : Type 0} (r : Request Q) where
  bounded-le :
      (limit : ℕ) (detail : String) (n : Option ℕ)
      → Returns Any (λ k. k ≤ limit) (bounded store r limit detail n)
  bounded-le limit detail none = record { result = λ s h a e. cc }
  bounded-le limit detail (some n) =
      Returns-bind (λ (_ : Unit {0}). leb n limit ≡ true)
        (guard (leb n limit) (reply (error 400 detail))) _ (Keeps-Any _) (Returns-guard _ _)
        λ _ small. Returns-pure n (ground arith)

  query_number-le :
      (raw : String) (default limit : ℕ) (detail : String)
      → default ≤ limit
      → Returns Any (λ k. k ≤ limit) (query_number store r raw default limit detail)
  unfolding query_number
  query_number-le raw default limit detail small =
      Returns-if (raw == "") _ _ (Returns-pure default small)
        (bounded-le limit detail (parse_id raw))

  query_tenant-asked :
      (raw : String) → Returns Any (λ t. t ≡ asked_tenant raw) (query_tenant store r raw)
  unfolding query_tenant
  query_tenant-asked raw = elim (Bool-cases (raw == "")) [
    | inl empty ↦ record { result = λ s h t e. ground arith }
    | inr given ↦ elim (Option-cases (parse_id raw)) [
      | inl bad ↦ record { result = λ s h t e. ground arith }
      | inr (id, good) ↦ record { result = λ s h t e. ground arith }
    ]
  ]

  list_event_items-IsPage :
      (query_value : String → String)
      → Returns Any
          (IsPage (query_value "status") (asked_tenant (query_value "tenant_id")) 100)
          (list_event_items store r query_value)
  unfolding list_event_items
  list_event_items-IsPage query_value =
      let status = query_value "status" in
      let asked = asked_tenant (query_value "tenant_id") in
      Returns-bind_any (ready store) _ (Keeps-Any _) λ _.
        Returns-bind_any
          (query_number store r (query_value "page") 1 (2 ^ 63 - 1) "page must be >= 1") _
          (Keeps-Any _)
          λ page.
            Returns-bind (λ n. n ≤ 100)
              (query_number store r (query_value "page_size") 20 100 "page_size must be 1-100") _
              (Keeps-Any _)
              (query_number-le (query_value "page_size") 20 100 "page_size must be 1-100"
                (ground arith))
              λ page_size small.
                Returns-bind (λ t. t ≡ asked) (query_tenant store r (query_value "tenant_id")) _
                  (Keeps-Any _) (query_tenant-asked (query_value "tenant_id"))
                  λ tenant_id same.
                    Returns-bind (λ out. PageOf status tenant_id page_size out.0)
                      (database (list_events status tenant_id page page_size)) _ (Keeps-Any _)
                      (Returns-database _ (list_events-PageOf status tenant_id page page_size))
                      λ out good. Returns-pure (json 200 (event_items out.0 out.1)) (
                        at_most status asked out.0 small
                          (subst (λ t. PageOf status t page_size out.0) same good))

  -- What `listEvents` answers without an error, whatever is asked and stored and whatever fails: a
  -- page of at most 100 events, all with the status and with the tenant of the query where these
  -- are given.
  pub list_event_items_bound :
      (query_value : String → String) (s : Store) (page : Response AlertBody)
      → (list_event_items store r query_value s).0 ≡ ok page
      → IsPage (query_value "status") (asked_tenant (query_value "tenant_id")) 100 page
  list_event_items_bound query_value s page e =
      (list_event_items-IsPage query_value).result s (record { holds = tt }) page e
