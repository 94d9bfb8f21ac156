-- ===== src/Client/Tests.antt =====
-- Tests and examples for the pages.
mod Forms
mod Browse
use foxplay_game.Common.{
  ℕ, zero, suc, ◌*◌, ◌<◌, String, true, false, List, [], ◌∷◌, map, none, some, ◌≡◌, ◌↔◌, refl,
  arith, ◌≤◌, ◌≢◌, All, AreDistinct, sort_desc, sort_desc-IsOrderDesc, str_eq, show, if◌then◌else◌,
}
use foxplay_game.Server.{World}
use foxplay_game.Instances.{InstanceDetail}
use foxplay_game.Client.Server.{start, stop, click}
use foxplay_game.Client.Server.Busy.{opened, IsReached, IsOrderly, IsReached-IsOrderly}
use foxplay_game.Client.Toasts.{success_toast, Event, pushed, waited, mounted, run_events}
use foxplay_game.Client.Toasts.Shown.{blank, run_board, run_events-board}
use foxplay_game.Activity.Paging.{JsNumber, nan, whole}
use foxplay_game.Activity.{InvocationRow, time_of, runs_of}
use foxplay_game.Activity.Detail.{totals_of}
use foxplay_game.Client.Runs.{fmt_bytes, avg, total_pages}
use foxplay_game.Client.Paged.{pages_below, rows_or_none, shown, pages_below-runs}
use foxplay_game.Client.Paging.{IsShown, IsShown-iff}

kilobytes : fmt_bytes 1587 ≡ "1.5 KB"
unfolding fmt_bytes show
kilobytes = refl

half_up : fmt_bytes 1075 ≡ "1.0 KB"
unfolding fmt_bytes show
half_up = refl

just_below : fmt_bytes 1048575 ≡ "1024.0 KB"
unfolding fmt_bytes show
just_below = refl

average : avg (1 ∷ 2 ∷ []) ≡ some 2
unfolding avg
average = refl

abbrev id : String
id = "fn-b8965196-1caf-4d21-b4f0-6bdc5f6a617e"

abbrev run : ℕ → InvocationRow
run time = record {
  id = "log-1";
  function_id = id;
  item = record {
    start_type = "warm";
    queue_wait_ms = 1;
    boot_ms = 90;
    invoke_ms = 4;
    status = 200;
    infra_error = false;
    cpu_ms = 3;
    mem_peak_kb = 900;
    request_body = "";
    created_at = time;
  };
}

abbrev runs : ℕ → List InvocationRow
runs zero = []
runs (suc n) = run n ∷ runs n

abbrev number : String → JsNumber
number text = if str_eq text "10" then whole 10 else if str_eq text "0" then whole 0 else nan

abbrev world : World (Unit {0})
world = record { instances = []; functions = []; ssh_keys = []; faults = []; remote = tt }

number_of_offset : (p : ℕ) → p < 2 → number (show (p * 10)) ≡ whole (p * 10)
unfolding show
number_of_offset zero h = refl
number_of_offset (suc zero) h = refl
number_of_offset (suc (suc p)) h = absurd (omega (arith, h))

earlier : (m n : ℕ) → n ≤ m → All (λ r. time_of r ≢ m) (runs n)
earlier m zero h = tt
earlier m (suc n) h = (λ e. omega (arith, e, h), earlier m n (omega (arith, h)))

differ_all : (n : ℕ) → AreDistinct time_of (runs n)
differ_all zero = tt
differ_all (suc n) = (earlier n n (omega arith), differ_all n)

pages_below-runs_example :
    pages_below (λ p. rows_or_none (shown number (λ p. sort_desc time_of) (runs 12) id world p)) 2
    ≡ map (λ r. r.item) (runs_of (sort_desc time_of) id (runs 12))
unfolding totals_of total_pages show foxplay_game.Models.is_prefixed_id
pages_below-runs_example =
    pages_below-runs number (λ p. sort_desc time_of) (runs 12) id world (sort_desc time_of)
      (sort_desc-IsOrderDesc time_of) (λ p. sort_desc-IsOrderDesc time_of) (differ_all 12) refl refl
      refl number_of_offset (omega arith)

IsShown-iff_example : IsShown 12 1 ↔ (1 < total_pages 12)
IsShown-iff_example = IsShown-iff 12 1

abbrev server : InstanceDetail
server = record {
  id = "srv-1";
  name = "box";
  state = "running";
  base_image = "alpine";
  vcpu = 1;
  mem_mib = 512;
  guest_ip = none;
  ssh_host_port = none;
  created_at = 1;
}

IsReached-IsOrderly_example : IsOrderly (click start true (click stop true (opened server)))
IsReached-IsOrderly_example =
    IsReached-IsOrderly
      (IsReached.clicked start true (IsReached.clicked stop true (IsReached.fresh server)))

abbrev toasts : List Event
toasts =
    pushed (success_toast "a" none)
    ∷ waited 4000
    ∷ pushed (success_toast "b" none)
    ∷ waited 2000
    ∷ []

only_second : map (λ i. i.id) (run_events mounted toasts).items ≡ 2 ∷ []
unfolding run_events
only_second = refl

run_events-board_example :
    (run_events mounted toasts).items ≡ map (λ f. f.item) (run_board blank toasts).fired
run_events-board_example = run_events-board toasts
