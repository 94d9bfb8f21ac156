-- ===== src/Client/Toasts.antt =====
-- frontend/components/Toast.tsx: the toasts, their ids, and the timers that take them away. What the
-- pages leave is a `Toast`; the time that a toast may show is left out.
pub mod Shown
use foxplay_game.Common.{
  ℕ, suc, ◌+◌, String, Bool, true, not, List, [], ◌∷◌, ◌++◌, Option, select, leb, ◌==◌,
  if◌then◌else◌,
}

pub data ToastKind : Type 0 where
  good bad : ToastKind

-- what `toast.success` and `toast.error` are given
pub record Toast : Type 0 where
  pub kind : ToastKind
  pub message : String
  pub description : Option String

abbrev pub success_toast : String → Option String → Toast
success_toast message description = record {
  kind = good;
  message = message;
  description = description;
}

abbrev pub error_toast : String → Option String → Toast
error_toast message description = record {
  kind = bad;
  message = message;
  description = description;
}

abbrev pub dismiss_ms : ℕ
dismiss_ms = 6000

pub record ToastItem : Type 0 where
  pub id : ℕ
  pub toast : Toast

-- a timer that has not run yet: when it is due, and the id that it takes away
pub record Timer : Type 0 where
  pub due : ℕ
  pub id : ℕ

pub record Toaster : Type 0 where
  pub now : ℕ
  pub next_id : ℕ
  pub listening : Bool
  pub items : List ToastItem
  pub timers : List Timer

-- the listener
abbrev pub listen : ToastItem → Toaster → Toaster
listen t s = record s {
  items = s.items ++ (t ∷ []);
  timers = s.timers ++ (record { due = s.now + dismiss_ms; id = t.id } ∷ []);
}

-- `push`: without a listener not even the id is counted
unfoldable pub push : Toast → Toaster → Toaster
push t s =
    if s.listening
    then listen (record { id = suc s.next_id; toast = t }) (record s { next_id = suc s.next_id })
    else s

-- `prev.filter((x) => x.id !== t.id)`
abbrev pub dismiss : ℕ → List ToastItem → List ToastItem
dismiss id = select (λ x. not (x.id == id))

-- the timers that are due run
unfoldable pub run_timers : ℕ → List Timer → List ToastItem → List ToastItem
run_timers now [] items = items
run_timers now (t ∷ timers) items =
    run_timers now timers (if leb t.due now then dismiss t.id items else items)

unfoldable pub wait : ℕ → Toaster → Toaster
unfolding run_timers
wait ms s =
    let now = s.now + ms in
    record s {
      now = now;
      items = run_timers now s.timers s.items;
      timers = select (λ t. not (leb t.due now)) s.timers;
    }

-- what happens to the toasts once the toaster is mounted
pub data Event : Type 0 where
  pushed : Toast → Event
  waited : ℕ → Event

abbrev pub mounted : Toaster
mounted = record { now = 0; next_id = 0; listening = true; items = []; timers = [] }

abbrev pub toaster_step : Toaster → Event → Toaster
toaster_step s (pushed t) = push t s
toaster_step s (waited ms) = wait ms s

unfoldable pub run_events : Toaster → List Event → Toaster
unfolding push wait
run_events s [] = s
run_events s (e ∷ events) = run_events (toaster_step s e) events
