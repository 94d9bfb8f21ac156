-- ===== src/Activity/Tests.antt =====
-- Tests and examples for what is shown of a function's runs: two invocations of one function.
use foxplay_game.Common.{
  Bool, Option, ℕ, ◌<◌, ◌≤◌, sort_desc, sort_desc-IsOrderDesc, String, true, false, List, [], ◌∷◌,
  map, none, some, ◌≡◌, ◌⊎◌, refl, find, str_eq, if◌then◌else◌,
}
use foxplay_game.Models.{is_prefixed_id}
use foxplay_game.Server.{World, FunctionRow, ok, fail, reply}
use foxplay_game.Registry.Functions.{new_function}
use foxplay_game.Activity.{InvocationRow, time_of, list_invocations}
use foxplay_game.Activity.Paging.{JsNumber, nan, finite, whole, bound, limit_of, offset_of}
use foxplay_game.Activity.Pages.{IsPage, list_invocations-IsPage}
use foxplay_game.Activity.Metrics.{
  MetricRow, Metrics, IsAbout, sampled_at, list_metrics, list_metrics-IsPage,
}
use foxplay_game.Activity.Detail.{FunctionDetail, get_function, totals_of, deployed_at}
use foxplay_game.Activity.Detail.Aggregates.{IsDetail, get_function-IsDetail}

abbrev id : String
id = "fn-b8965196-1caf-4d21-b4f0-6bdc5f6a617e"

abbrev run : ℕ → InvocationRow
run time = record {
  id = "log-1";
  function_id = id;
  item = record {
    start_type = "cold";
    queue_wait_ms = 1;
    boot_ms = 90;
    invoke_ms = 4;
    status = 200;
    infra_error = false;
    cpu_ms = 3;
    mem_peak_kb = 900;
    request_body = "";
    created_at = time;
  };
}

abbrev runs : List InvocationRow
runs = run 5 ∷ run 9 ∷ []

-- `Number` of a few texts
abbrev number : String → JsNumber
number text =
    if str_eq text "1000"
    then whole 1000
    else if str_eq text "0.5"
    then finite false 0 true
    else nan

abbrev world : World (Unit {0})
world = record {
  instances = [];
  functions = new_function id 3 "hello" ∷ [];
  ssh_keys = [];
  faults = [];
  remote = tt;
}

-- A fraction passes the checks of the route and is refused by the database.
fraction_fails :
    (list_invocations number (sort_desc time_of) runs id (some "0.5") none world).0
    ≡ ok (fail 500 "query failed")
unfolding list_invocations is_prefixed_id
fraction_fails = refl

last_seen : (totals_of id runs).last_run ≡ some 9
unfolding totals_of
last_seen = refl

list_invocations-IsPage_example :
    let r = (list_invocations number (sort_desc time_of) runs id (some "1000") none world).0 in
    (r ≡ ok (fail 500 "query failed"))
    ⊎ ((n m : ℕ) × (bound (limit_of number 50 500 (some "1000")) ≡ some n)
        × (bound (offset_of number none) ≡ some m)
        × (0 < n)
        × (n ≤ 500)
        × (rows : List InvocationRow) × (r ≡ ok (reply 200 (map (λ v. v.item) rows)))
        × IsPage (λ r. r.function_id) time_of id n m runs rows)
unfolding is_prefixed_id
list_invocations-IsPage_example =
    list_invocations-IsPage number (sort_desc time_of) runs id (some "1000") none world
      (sort_desc-IsOrderDesc time_of) refl

get_function-IsDetail_example :
    let r = (get_function (sort_desc deployed_at) runs [] id world).0 in
    let found = find (λ (f : FunctionRow). str_eq f.id id) world.functions in
    (r ≡ ok (fail 500 "query failed"))
    ⊎ (found ≡ none) × (r ≡ ok (fail 404 "not found"))
    ⊎ ((f : FunctionRow) × (d : FunctionDetail) × (found ≡ some f)
        × (r ≡ ok (reply 200 d))
        × IsDetail id f runs [] d)
unfolding is_prefixed_id
get_function-IsDetail_example =
    get_function-IsDetail (sort_desc deployed_at) runs [] id world
      (sort_desc-IsOrderDesc deployed_at) refl

abbrev machine : String
machine = "srv-b8965196-1caf-4d21-b4f0-6bdc5f6a617e"

abbrev metrics : List MetricRow
metrics =
    record {
      instance_id = machine;
      sample = record { cpu_pct = 3; mem_rss_kb = 900; created_at = 5 };
    }
    ∷ []

abbrev first_value : List ℕ → Option ℕ
first_value [] = none
first_value (n ∷ ns) = some n

abbrev always : ℕ → Bool
always time = true

list_metrics-IsPage_example :
    let r =
      (list_metrics number
        (sort_desc sampled_at)
        first_value
        always
        metrics
        machine
        none
        none
        world).0 in
    (r ≡ ok (fail 500 "query failed"))
    ⊎ ((n m : ℕ) × (bound (limit_of number 10 200 none) ≡ some n)
        × (bound (offset_of number none) ≡ some m)
        × (0 < n)
        × (n ≤ 200)
        × (rows : List MetricRow) × (d : Metrics) × (r ≡ ok (reply 200 d))
        × IsAbout first_value always metrics machine rows d
        × IsPage (λ v. v.instance_id) sampled_at machine n m metrics rows)
unfolding is_prefixed_id
list_metrics-IsPage_example =
    list_metrics-IsPage number (sort_desc sampled_at) first_value always metrics machine none none
      world (sort_desc-IsOrderDesc sampled_at) refl
