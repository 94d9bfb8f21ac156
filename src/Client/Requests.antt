-- ===== src/Client/Requests.antt =====
-- What a page has of a request: frontend/features/functions/lib/api.ts and
-- frontend/features/servers/lib/api.ts, and the state of a query. An answer stands with what its body
-- is as JSON, `none` where it is none.
use foxplay_game.Common.{
  ℕ, String, Bool, true, false, [], ◌∷◌, Option, none, some, template, show, ◌==◌, if◌then◌else◌,
}
use foxplay_game.Server.{Thrown, Res, ok, thrown, is_ok_status}
use foxplay_game.Server.Manager.{new_error}

pub data Reply (A : Type 0) : Type 0 where
  lost : Thrown → Reply A
  got : ℕ → Option A → Reply A

-- `isPending`, `isError`, `data`
pub data Query (A : Type 0) : Type 0 where
  pending failed : Query A
  loaded : A → Query A

abbrev pub not_json : Thrown
not_json = new_error "the body is not JSON"

-- `return res.json()`
abbrev pub json_of : {A : Type 0} → Option A → Res A
json_of none = thrown not_json
json_of (some a) = ok a

abbrev pub status_error : String → ℕ → Thrown
status_error what status = new_error (template (what ∷ ": " ∷ show status ∷ []))

abbrev pub present : {A : Type 0} → Res A → Res (Option A)
present (ok a) = ok (some a)
present (thrown e) = thrown e

-- `fetchFunctionDetail` and `fetchInstanceDetail`: `none` is `null`
unfoldable pub fetch_detail : {A : Type 0} → Reply A → Res (Option A)
unfolding show
fetch_detail (lost e) = thrown e
fetch_detail (got status body) =
    if status == 404
    then ok none
    else if is_ok_status status
    then present (json_of body)
    else thrown (status_error "detail query failed" status)

abbrev pub is_pending : {A : Type 0} → Query A → Bool
is_pending pending = true
is_pending failed = false
is_pending (loaded a) = false

abbrev pub is_failed : {A : Type 0} → Query A → Bool
is_failed pending = false
is_failed failed = true
is_failed (loaded a) = false

-- `data ?? default`
abbrev pub data_or : {A : Type 0} → A → Query A → A
data_or default pending = default
data_or default failed = default
data_or default (loaded a) = a
