-- ===== src/Client/Toasts/Shown/Ages.antt =====
-- What frontend/components/Toast.tsx is to show: each toast for as long as it is young.
use foxplay_game.Common.{ℕ, suc, ◌+◌, ◌<◌, Bool, List, [], ◌∷◌, ◌++◌, select, ltb, All}
use foxplay_game.Client.Toasts.{ToastItem, Timer, Event, pushed, waited}

-- The specification: a toast is shown from the moment it is fired until it is 6000 ms old.
pub record Fired : Type 0 where
  pub item : ToastItem
  pub born : ℕ

pub record Board : Type 0 where
  pub now : ℕ
  pub count : ℕ
  pub fired : List Fired

abbrev pub is_young : ℕ → Fired → Bool
is_young now f = ltb now (f.born + 6000)

unfoldable pub board_step : Board → Event → Board
board_step b (pushed t) = record b {
  count = suc b.count;
  fired = b.fired ++ (record { item = record { id = suc b.count; toast = t }; born = b.now } ∷ []);
}
board_step b (waited ms) = record b {
  now = b.now + ms;
  fired = select (is_young (b.now + ms)) b.fired;
}

unfoldable pub run_board : Board → List Event → Board
unfolding board_step
run_board b [] = b
run_board b (e ∷ events) = run_board (board_step b e) events

abbrev pub timer_of : Fired → Timer
timer_of f = record { due = f.born + 6000; id = f.item.id }

-- every id is smaller than the later ones
abbrev pub AreOrdered : List Fired → Type 0
AreOrdered [] = Unit
AreOrdered (f ∷ fs) = All (λ g. f.item.id < g.item.id) fs × AreOrdered fs
