-- ===== src/Activity.antt =====
-- What the frontend shows of a function's runs: frontend/app/api/functions/[id]/invocations/route.ts
-- and GET of frontend/app/api/functions/[id]/route.ts. `number` is `Number` of a
-- text, and `order` is the order in which the database answers one statement: it sorts by the time,
-- and what it does with rows of one time is left open (`IsOrderDesc`).
pub mod Paging
pub mod Pages
pub mod Detail
pub mod Metrics
mod Tests
use foxplay_game.Common.{ℕ, String, Bool, not, List, map, Option, none, some, if◌then◌else◌}
use foxplay_game.Models.{is_function_id}
use foxplay_game.Server.{Thrown, M, pure, throw, ◌>>=◌, try_catch, query, Response, fail, reply}
use foxplay_game.Activity.Paging.{JsNumber, limit_of, offset_of, bound, page, rows_of}

-- what is shown of a row of `invocations`
pub record InvocationItem : Type 0 where
  pub start_type : String
  pub queue_wait_ms : ℕ
  pub boot_ms : ℕ
  pub invoke_ms : ℕ
  pub status : ℕ
  pub infra_error : Bool
  pub cpu_ms : ℕ
  pub mem_peak_kb : ℕ
  pub request_body : String
  pub created_at : ℕ

pub record InvocationRow : Type 0 where
  pub id : String
  pub function_id : String
  pub item : InvocationItem

abbrev pub bad_number : Thrown
bad_number = record { code = some "22P02"; message = "invalid input syntax for type bigint" }

abbrev pub time_of : InvocationRow → ℕ
time_of r = r.item.created_at

-- `WHERE function_id = $1 ORDER BY created_at DESC`
abbrev pub runs_of :
    (List InvocationRow → List InvocationRow) → String → List InvocationRow → List InvocationRow
runs_of = rows_of (λ r. r.function_id)

-- the statement, with its parameters bound
abbrev pub select_page :
    {S : Type 0}
    → (List InvocationRow → List InvocationRow)
    → String
    → List InvocationRow
    → Option ℕ
    → Option ℕ
    → M S (List InvocationItem)
select_page order id rows (some limit) (some offset) =
    pure (map (λ r. r.item) (page limit offset (runs_of order id rows)))
select_page order id rows (some limit) none = throw bad_number
select_page order id rows none offset = throw bad_number

module _ {S : Type 0} (number : String → JsNumber) (order : List InvocationRow → List InvocationRow)
    (invocations : List InvocationRow) where
  unfoldable pub list_invocations :
      String → Option String → Option String → M S (Response (List InvocationItem))
  unfolding rows_of limit_of offset_of bound query
  list_invocations id limit offset =
      if not (is_function_id id)
      then pure (fail 404 "not found")
      else try_catch
          (query (
              select_page order id invocations (bound (limit_of number 50 500 limit))
                (bound (offset_of number offset)))
            >>= λ rows. pure (reply 200 rows))
          (λ _. pure (fail 500 "query failed"))
