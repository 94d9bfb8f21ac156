-- ===== src/Activity/Detail/Aggregates.antt =====
-- What the detail of a function tells of its invocations and deployments.
use foxplay_game.Common.{
  ℕ, ◌≤◌, String, Bool, true, ◌≡◌, ◌⊎◌, refl, inl, inr, arith, List, [], ◌∷◌, Option, none, some,
  length, select, find, str_eq, All, All-imp, length_permuted, Reordered, IsOrderDesc, not, ◌+◌,
  IsSortedDesc, any, ◌==◌, sym, Bool-cases, Option-cases,
}
use foxplay_game.Models.{is_function_id}
use foxplay_game.Server.{World, FunctionRow, ok, fail, reply, query, next_fault, later_faults}
use foxplay_game.Activity.{InvocationRow, time_of}
use foxplay_game.Activity.Detail.{
  DeploymentItem, DeploymentRow, FunctionDetail, own_runs, own_deployments, later, first_item,
  last_time, totals_of, deployed_at, last_deployment_of, detail_of, with_function, get_function,
}

-- The time of the latest of the rows, if there are any.
abbrev pub IsLatest : List InvocationRow → Option ℕ → Type 0
IsLatest rows none = rows ≡ []
IsLatest rows (some t) = All (λ r. time_of r ≤ t) rows × (any (λ r. time_of r == t) rows ≡ true)

later-IsLatest :
    (r : InvocationRow) (rows : List InvocationRow) (o : Option ℕ)
    → IsLatest rows o
    → IsLatest (r ∷ rows) (some (later (time_of r) o))
later-IsLatest r rows none h = rw h ((omega arith, tt), ground arith)
later-IsLatest r rows (some t) h =
    ((omega arith, All-imp (λ q k. omega (arith, k)) rows h.0), ground (arith, h.1))

last_time-IsLatest : (rows : List InvocationRow) → IsLatest rows (last_time rows)
unfolding last_time
last_time-IsLatest [] = refl
last_time-IsLatest (r ∷ rows) = later-IsLatest r rows (last_time rows) (last_time-IsLatest rows)

-- A row either passes a test or does not.
select_rest :
    {A : Type 0} (p : A → Bool) (rows : List A)
    → length (select p rows) + length (select (λ r. not (p r)) rows) ≡ length rows
select_rest p [] = omega arith
select_rest p (r ∷ rows) = elim (Bool-cases (p r)) [
  | inl e ↦ rw e (omega (arith, select_rest p rows))
  | inr e ↦ rw e (omega (arith, select_rest p rows))
]

-- The newest of the deployments of a function, if there are any: one of them, and none of the others
-- is later.
abbrev pub IsNewest : String → List DeploymentRow → Option DeploymentItem → Type 0
IsNewest id table none = length (select (λ d. str_eq d.function_id id) table) ≡ 0
IsNewest id table (some item) =
    (d : DeploymentRow) × (rest : List DeploymentRow) × (d.item ≡ item)
    × Reordered (d ∷ rest) (select (λ d. str_eq d.function_id id) table)
    × All (λ q. deployed_at q ≤ deployed_at d) rest

first_item-IsNewest :
    (id : String) (table sorted : List DeploymentRow)
    → Reordered sorted (select (λ d. str_eq d.function_id id) table)
    → IsSortedDesc deployed_at sorted
    → IsNewest id table (first_item sorted)
first_item-IsNewest id table [] same order = sym (length_permuted same)
first_item-IsNewest id table (d ∷ sorted) same order = (d, sorted, refl, same, order.0)

-- What a detail tells of the function `id`.
pub record IsDetail (id : String) (f : FunctionRow) (invocations : List InvocationRow)
    (deployments : List DeploymentRow) (d : FunctionDetail) : Type 0 where
  pub row :
      (d.id ≡ id)
      × (d.name ≡ f.name)
      × (d.created_at ≡ f.created_at)
      × (d.deleted_at ≡ f.deleted_at)
  pub own : List InvocationRow
  pub of_function : own ≡ select (λ r. str_eq r.function_id id) invocations
  pub runs : d.runs ≡ length own
  pub errors : d.infra_errors + length (select (λ r. not r.item.infra_error) own) ≡ length own
  pub latest : IsLatest own d.last_run
  pub newest : IsNewest id deployments d.last_deployment

detail_of-IsDetail :
    (order : List DeploymentRow → List DeploymentRow) (id : String) (f : FunctionRow)
    (invocations : List InvocationRow) (deployments : List DeploymentRow)
    → IsOrderDesc deployed_at order
    → IsDetail id f invocations deployments
        (detail_of id f (totals_of id invocations) (last_deployment_of order id deployments))
unfolding totals_of last_deployment_of
detail_of-IsDetail order id f invocations deployments law = record {
  row = (refl, refl, refl, refl);
  own = own_runs id invocations;
  of_function = refl;
  runs = refl;
  errors = select_rest (λ r. r.item.infra_error) (own_runs id invocations);
  latest = last_time-IsLatest (own_runs id invocations);
  newest =
      first_item-IsNewest id deployments _ (law.same (own_deployments id deployments))
        (law.sorted (own_deployments id deployments));
}

module _ {S : Type 0} (order : List DeploymentRow → List DeploymentRow)
    (invocations : List InvocationRow) (deployments : List DeploymentRow) where
  -- Where the database sorts as `ORDER BY` asks, the detail of a well-formed id is 500, or 404 where no
  -- function has the id, or 200 with the name and the times of the function that has it, deleted or not,
  -- the number of its invocations, the number of those that failed (the others make up the rest), the time
  -- of its latest invocation, if any, and the newest of its own deployments, if any.
  pub get_function-IsDetail :
      (id : String) (w : World S)
      → IsOrderDesc deployed_at order
      → is_function_id id ≡ true
      → let r = (get_function order invocations deployments id w).0 in
        let found = find (λ f. str_eq f.id id) w.functions in
        (r ≡ ok (fail 500 "query failed"))
        ⊎ (found ≡ none) × (r ≡ ok (fail 404 "not found"))
        ⊎ ((f : FunctionRow) × (d : FunctionDetail) × (found ≡ some f)
            × (r ≡ ok (reply 200 d))
            × IsDetail id f invocations deployments d)
  unfolding get_function with_function query
  get_function-IsDetail id w law h = elim (Option-cases (next_fault w.faults)) [
    | inr (e, x) ↦ inl (ground arith)
    | inl x ↦ elim (Option-cases (find (λ f. str_eq f.id id) w.functions)) [
      | inl missing ↦ inr (inl (missing, ground arith))
      | inr (f, there) ↦ elim (Option-cases (next_fault (later_faults w.faults))) [
        | inr (e, y) ↦ inl (ground arith)
        | inl y ↦ elim (Option-cases (next_fault (later_faults (later_faults w.faults)))) [
          | inr (e, z) ↦ inl (ground arith)
          | inl z ↦ inr (
              inr (
                f,
                detail_of id f (totals_of id invocations) (last_deployment_of order id deployments),
                there,
                ground arith,
                detail_of-IsDetail order id f invocations deployments law,
              ))
        ]
      ]
    ]
  ]
