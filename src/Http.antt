-- ===== src/Http.antt =====
-- internal/httpx/httpx.go: the answers of a handler. Encoding to JSON is left to the encoder, so a
-- body is the value that is encoded.
pub mod Keeps
pub mod Triple
use osspilot_ops_api.Common.{ℕ, ◌≤◌, String, Option, none, some}
use osspilot_ops_api.Action.{Result, ok, err, Action, stop}
use osspilot_ops_api.Database.{DbError}

-- `error` is `httpx.Error`, `json` is `httpx.JSON`, `no_content` is `w.WriteHeader(204)`.
pub data Response (B : Type 0) : Type 0 where
  error : ℕ → String → Response B
  json : ℕ → B → Response B
  no_content : Response B

-- How a handler leaves early: with an answer, or by a run-time panic.
pub data Exit (B : Type 0) : Type 0 where
  reply : Response B → Exit B
  panic : Exit B

abbrev pub Handler : Type 0 → Type 0 → Type 0 → Type 0
Handler S B A = Action S (Exit B) A

module _ {S B A : Type 0} where
  -- `httpx.Error(w, status, detail); return`
  abbrev pub refuse : ℕ → String → Handler S B A
  refuse status detail = stop (reply (error status detail))

  -- `if err != nil { httpx.Error(w, http.StatusInternalServerError, "database error"); return }`
  abbrev pub or_500 : Result DbError A → Handler S B A
  or_500 (ok a) s = (ok a, s)
  or_500 (err e) s = (err (reply (error 500 "database error")), s)

  abbrev pub database : Action S DbError A → Handler S B A
  database m s = or_500 (m s).0 (m s).1

module _ {B : Type 0} where
  -- What the client is sent: `none` after a panic.
  abbrev pub answer : Result (Exit B) (Response B) → Option (Response B)
  answer (ok r) = some r
  answer (err (reply r)) = some r
  answer (err panic) = none

  abbrev pub status_of : Response B → ℕ
  status_of (error status detail) = status
  status_of (json status body) = status
  status_of no_content = 204

  -- An error answer whose status is at least `least`, and no panic.
  abbrev pub IsRefusal : ℕ → Exit B → Type 0
  IsRefusal least (reply (error code detail)) = least ≤ code
  IsRefusal least _ = ⊥
