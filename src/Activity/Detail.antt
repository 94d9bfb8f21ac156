-- ===== src/Activity/Detail.antt =====
-- GET of frontend/app/api/functions/[id]/route.ts: a function with the totals of its invocations and
-- its last deployment. `order` is the order in which the database answers the statement on
-- `deployments`.
pub mod Aggregates
use Prim.Native.Nat.{max}
use foxplay_game.Common.{
  ℕ, String, Bool, not, List, [], ◌∷◌, Option, none, some, str_eq, select, find, length,
  if◌then◌else◌,
}
use foxplay_game.Models.{is_function_id}
use foxplay_game.Server.{FunctionRow, ok, M, pure, ◌>>=◌, try_catch, query, Response, fail, reply}
use foxplay_game.Activity.{InvocationRow, time_of}

-- what is shown of a row of `deployments`
pub record DeploymentItem : Type 0 where
  pub created_at : ℕ
  pub image_size_bytes : ℕ
  pub build_ms : ℕ
  pub snapshot_enabled : Bool
  pub snapshot_ms : ℕ
  pub snapshot_ok : Bool
  pub kernel_path : String
  pub kernel_size_bytes : ℕ
  pub base_rootfs_path : String
  pub base_rootfs_size_bytes : ℕ
  pub bootstrap_version : String

pub record DeploymentRow : Type 0 where
  pub id : String
  pub function_id : String
  pub item : DeploymentItem

pub record FunctionDetail : Type 0 where
  pub id : String
  pub name : String
  pub created_at : ℕ
  pub deleted_at : Option ℕ
  pub runs : ℕ
  pub last_run : Option ℕ
  pub infra_errors : ℕ
  pub last_deployment : Option DeploymentItem

-- the row of the totals
pub record Totals : Type 0 where
  pub runs : ℕ
  pub last_run : Option ℕ
  pub infra_errors : ℕ

abbrev pub own_runs : String → List InvocationRow → List InvocationRow
own_runs id = select (λ r. str_eq r.function_id id)

abbrev pub own_deployments : String → List DeploymentRow → List DeploymentRow
own_deployments id = select (λ d. str_eq d.function_id id)

-- `max(created_at)`
abbrev pub later : ℕ → Option ℕ → ℕ
later t none = t
later t (some best) = max t best

unfoldable pub last_time : List InvocationRow → Option ℕ
last_time [] = none
last_time (r ∷ rows) = some (later (time_of r) (last_time rows))

-- the statement on `invocations`
unfoldable pub totals_of : String → List InvocationRow → Totals
unfolding last_time
totals_of id rows = record {
  runs = length (own_runs id rows);
  last_run = last_time (own_runs id rows);
  infra_errors = length (select (λ r. r.item.infra_error) (own_runs id rows));
}

abbrev pub deployed_at : DeploymentRow → ℕ
deployed_at d = d.item.created_at

abbrev pub first_item : List DeploymentRow → Option DeploymentItem
first_item [] = none
first_item (d ∷ rows) = some d.item

-- the statement on `deployments`, `ORDER BY created_at DESC LIMIT 1`
unfoldable pub last_deployment_of :
    (List DeploymentRow → List DeploymentRow) → String → List DeploymentRow → Option DeploymentItem
last_deployment_of order id rows = first_item (order (own_deployments id rows))

abbrev pub detail_of : String → FunctionRow → Totals → Option DeploymentItem → FunctionDetail
detail_of id f totals deployment = record {
  id = id;
  name = f.name;
  created_at = f.created_at;
  deleted_at = f.deleted_at;
  runs = totals.runs;
  last_run = totals.last_run;
  infra_errors = totals.infra_errors;
  last_deployment = deployment;
}

module _ {S : Type 0} (order : List DeploymentRow → List DeploymentRow)
    (invocations : List InvocationRow) (deployments : List DeploymentRow) where
  -- once the function is looked up
  unfoldable pub with_function : String → Option FunctionRow → M S (Response FunctionDetail)
  unfolding query totals_of last_deployment_of
  with_function id none = pure (fail 404 "not found")
  with_function id (some f) = do
    totals ← query (λ w. (ok (totals_of id invocations), w))
    deployment ← query (λ w. (ok (last_deployment_of order id deployments), w))
    pure (reply 200 (detail_of id f totals deployment))

  unfoldable pub get_function : String → M S (Response FunctionDetail)
  unfolding with_function query
  get_function id =
      if not (is_function_id id)
      then pure (fail 404 "not found")
      else try_catch
          (query (λ w. (ok (find (λ r. str_eq r.id id) w.functions), w)) >>= with_function id)
          (λ _. pure (fail 500 "query failed"))
