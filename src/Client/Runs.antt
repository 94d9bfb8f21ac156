-- ===== src/Client/Runs.antt =====
-- frontend/features/functions/components/FunctionDetails.tsx: a function's details, and the table of
-- its runs, page by page. `fmt_time` is `toLocaleString` of a time.
use foxplay_game.Common.{
  ℕ, ◌+◌, ◌*◌, ◌/◌, ◌%◌, String, Bool, not, ◌&&◌, ◌||◌, List, [], ◌∷◌, map, Option, none, some,
  str_eq, select, length, take, template, show, ltb, leb, ◌==◌, if◌then◌else◌,
}
use Prim.Native.Nat.{max}
use foxplay_game.Server.{Res, ok, thrown, is_ok_status}
use foxplay_game.Activity.{InvocationItem}
use foxplay_game.Activity.Detail.{FunctionDetail, DeploymentItem}
use foxplay_game.Client.Requests.{
  Reply, lost, got, Query, is_pending, is_failed, data_or, not_json, status_error,
}

abbrev pub page_size : ℕ
page_size = 10

-- the path and the query of a page; `encode` is `encodeURIComponent`
unfoldable pub invocations_url : (String → String) → String → ℕ → ℕ → String
unfolding show
invocations_url encode id limit offset = template (
    "/api/functions/"
    ∷ encode id
    ∷ "/invocations?limit="
    ∷ show limit
    ∷ "&offset="
    ∷ show offset
    ∷ [])

-- `(await res.json()).invocations ?? []`
abbrev pub invocations_of : Option (Option (List InvocationItem)) → Res (List InvocationItem)
invocations_of none = thrown not_json
invocations_of (some none) = ok []
invocations_of (some (some rows)) = ok rows

-- `fetchInvocations`, from the answer
unfoldable pub fetch_invocations : Reply (Option (List InvocationItem)) → Res (List InvocationItem)
unfolding show
fetch_invocations (lost e) = thrown e
fetch_invocations (got status body) =
    if is_ok_status status
    then invocations_of body
    else thrown (status_error "invocations query failed" status)

-- `(n / unit).toFixed(1)`: the tenths, the larger where two are equally near. The quotient by a
-- power of two is exact.
unfoldable pub to_fixed_1 : ℕ → ℕ → String
unfolding show
to_fixed_1 n unit =
    let tenths = (20 * n + unit) / (2 * unit) in
    template (show (tenths / 10) ∷ "." ∷ show (tenths % 10) ∷ [])

unfoldable pub fmt_bytes : ℕ → String
unfolding to_fixed_1
fmt_bytes n =
    if n == 0
    then "—"
    else if ltb n 1024
    then template (show n ∷ " B" ∷ [])
    else if ltb n 1048576
    then template (to_fixed_1 n 1024 ∷ " KB" ∷ [])
    else template (to_fixed_1 n 1048576 ∷ " MB" ∷ [])

-- `Math.round` of a quotient: the nearest number, a half up
abbrev pub round_quotient : ℕ → ℕ → ℕ
round_quotient n d = (2 * n + d) / (2 * d)

abbrev pub sum : List ℕ → ℕ
sum [] = 0
sum (x ∷ xs) = x + sum xs

unfoldable pub avg : List ℕ → Option ℕ
avg [] = none
avg (x ∷ xs) = some (round_quotient (sum (x ∷ xs)) (length (x ∷ xs)))

unfoldable pub total_pages : ℕ → ℕ
total_pages runs = max 1 ((runs + 9) / page_size)

abbrev is_warm : InvocationItem → Bool
is_warm r = str_eq r.start_type "warm"

unfoldable pub avg_warm_ms : List InvocationItem → Option ℕ
unfolding avg
avg_warm_ms stats = avg (map (λ r. r.invoke_ms) (take 10 (select is_warm stats)))

unfoldable pub avg_boot_ms : List InvocationItem → Option ℕ
unfolding avg
avg_boot_ms stats =
    avg (map (λ r. r.boot_ms + r.invoke_ms) (take 10 (select (λ r. not (is_warm r)) stats)))

unfoldable pub avg_mem_kb : List InvocationItem → Option ℕ
unfolding avg
avg_mem_kb stats = avg (map (λ r. r.mem_peak_kb) (take 10 stats))

-- `x !== null ? f(x) : missing`
abbrev pub or_missing : {A : Type 0} → String → (A → String) → Option A → String
or_missing missing f none = missing
or_missing missing f (some a) = f a

abbrev pub in_ms : Option ℕ → String
in_ms = or_missing "—" (λ n. template (show n ∷ " ms" ∷ []))

abbrev pub snapshot_text : DeploymentItem → String
snapshot_text dep =
    if dep.snapshot_enabled
    then if dep.snapshot_ok then "Enabled" else "Enabled (creation failed)"
    else "Disabled"

-- a path that is not empty, with the size of its file
abbrev pub path_text : String → ℕ → String
path_text path size =
    if str_eq path "" then "—" else template (path ∷ " (" ∷ fmt_bytes size ∷ ")" ∷ [])

-- a row of the table: its cells, and whether the status is red
pub record RunRow : Type 0 where
  pub time : String
  pub kind : String
  pub duration : String
  pub status : String
  pub is_red : Bool
  pub memory : String

-- what is rendered: a message in place of the details, or the details, the table, which is empty
-- where it says "No runs yet.", and the number of pages
pub data View : Type 0 where
  panel : String → View
  details : List (String × String) → List RunRow → ℕ → View

module _ (fmt_time : ℕ → String) where
  unfoldable pub detail_rows : FunctionDetail → List InvocationItem → List (String × String)
  unfolding fmt_bytes show avg_warm_ms avg_boot_ms avg_mem_kb
  detail_rows detail stats =
      let dep = detail.last_deployment in
      ("Last ran", or_missing "never" fmt_time detail.last_run)
      ∷ ("Created", fmt_time detail.created_at)
      ∷ ("Avg warm start, last 10", in_ms (avg_warm_ms stats))
      ∷ ("Avg cold/snapshot start, last 10", in_ms (avg_boot_ms stats))
      ∷ ("Avg peak memory, last 10", or_missing "—" (λ n. fmt_bytes (n * 1024)) (avg_mem_kb stats))
      ∷ ("Image size", or_missing "—" (λ d. fmt_bytes d.image_size_bytes) dep)
      ∷ ("Snapshot", or_missing "—" snapshot_text dep)
      ∷ ("Kernel", or_missing "—" (λ d. path_text d.kernel_path d.kernel_size_bytes) dep)
      ∷ (
        "Base rootfs",
        or_missing "—" (λ d. path_text d.base_rootfs_path d.base_rootfs_size_bytes) dep,
      )
      ∷ (
        "Bootstrap",
        or_missing "—" (λ d. if str_eq d.bootstrap_version "" then "—" else d.bootstrap_version)
            dep,
      )
      ∷ []

  unfoldable pub run_row : InvocationItem → RunRow
  unfolding fmt_bytes show
  run_row r = record {
    time = fmt_time r.created_at;
    kind = r.start_type;
    duration = template (show (r.boot_ms + r.invoke_ms) ∷ " ms" ∷ []);
    status = if r.infra_error && r.status == 0 then "infra" else show r.status;
    is_red = r.infra_error || leb 400 r.status;
    memory = fmt_bytes (r.mem_peak_kb * 1024);
  }

  abbrev pub view_of : Option FunctionDetail → List InvocationItem → List InvocationItem → View
  view_of none stats runs = panel "Function not found."
  view_of (some detail) stats runs =
      details (detail_rows detail stats) (map run_row runs) (total_pages detail.runs)

  unfoldable pub view :
      Query (Option FunctionDetail)
      → Query (List InvocationItem)
      → Query (List InvocationItem)
      → View
  unfolding detail_rows run_row total_pages
  view detail stats page =
      if is_pending detail || is_pending stats || is_pending page
      then panel "Loading…"
      else if is_failed detail || is_failed stats || is_failed page
      then panel "Failed to load metrics."
      else view_of (data_or none detail) (data_or [] stats) (data_or [] page)
