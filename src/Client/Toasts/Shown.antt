-- ===== src/Client/Toasts/Shown.antt =====
-- The toasts that are shown, against a list of toasts with the time they were fired.
mod Ages
mod Timers
use mathlib.Core.Path.{subst}
use mathlib.Core.List.{map-append}
use foxplay_game.Common.{
  ℕ, suc, ◌+◌, ◌≤◌, true, false, ◌≡◌, refl, sym, ap, ◌∙◌, arith, List, [], ◌∷◌, map, select, All,
  All-append, All-imp, if◌then◌else◌,
}
use foxplay_game.Client.Toasts.{
  Toast, Toaster, listen, push, wait, Event, pushed, waited, mounted, toaster_step, run_events,
}
use foxplay_game.Client.Toasts.Shown.Ages.{timer_of, AreOrdered}
pub use foxplay_game.Client.Toasts.Shown.Ages.{Fired, Board, is_young, board_step, run_board}
use foxplay_game.Client.Toasts.Shown.Timers.{
  run_timers-young, nothing_before, waiting_timers, All-select, select-AreOrdered,
  append-AreOrdered,
}

record Matches (s : Toaster) (b : Board) : Type 0 where
  listening : s.listening ≡ true
  now : s.now ≡ b.now
  count : s.next_id ≡ b.count
  items : s.items ≡ map (λ f. f.item) b.fired
  timers : s.timers ≡ map timer_of b.fired
  counted : All (λ f. f.item.id ≤ b.count) b.fired
  past : All (λ f. f.born ≤ b.now) b.fired
  ordered : AreOrdered b.fired

push-Matches :
    (t : Toast) (s : Toaster) (b : Board)
    → Matches s b
    → Matches (push t s) (board_step b (pushed t))
unfolding push board_step
push-Matches t s b m =
    let new : Fired = record { item = record { id = suc b.count; toast = t }; born = b.now } in
    let heard : Toaster =
      listen (record { id = suc s.next_id; toast = t }) (record s { next_id = suc s.next_id }) in
    let same : push t s ≡ heard = ap (λ b. if b then heard else s) m.listening in
    subst (λ r. Matches r (board_step b (pushed t))) (sym same)
      (record {
        listening = m.listening;
        now = m.now;
        count = ap suc m.count;
        items = rw (m.items, m.count) (sym (map-append (λ f. f.item) b.fired (new ∷ [])));
        timers = rw (m.timers, m.now, m.count) (sym (map-append timer_of b.fired (new ∷ [])));
        counted =
            All-append _ b.fired (new ∷ []) (All-imp (λ f h. omega (arith, h)) b.fired m.counted)
              (omega arith, tt);
        past = All-append _ b.fired (new ∷ []) m.past (omega arith, tt);
        ordered =
            append-AreOrdered b.fired new m.ordered
              (All-imp (λ f h. omega (arith, h)) b.fired m.counted);
      })

wait-Matches :
    (ms : ℕ) (s : Toaster) (b : Board)
    → Matches s b
    → Matches (wait ms s) (board_step b (waited ms))
unfolding wait board_step
wait-Matches ms s b m =
    let now = b.now + ms in
    record {
      listening = m.listening;
      now = ap (λ n. n + ms) m.now;
      count = m.count;
      items =
          rw (m.now, m.items, m.timers)
            (run_timers-young now b.fired [] m.ordered (nothing_before b.fired));
      timers = rw (m.now, m.timers) (waiting_timers now b.fired);
      counted = All-select _ (is_young now) b.fired m.counted;
      past = All-select _ (is_young now) b.fired (All-imp (λ f h. omega (arith, h)) b.fired m.past);
      ordered = select-AreOrdered (is_young now) b.fired m.ordered;
    }

step-Matches :
    (e : Event) (s : Toaster) (b : Board)
    → Matches s b
    → Matches (toaster_step s e) (board_step b e)
step-Matches (pushed t) s b m = push-Matches t s b m
step-Matches (waited ms) s b m = wait-Matches ms s b m

run-Matches :
    (events : List Event) (s : Toaster) (b : Board)
    → Matches s b
    → Matches (run_events s events) (run_board b events)
unfolding run_events run_board
run-Matches [] s b m = m
run-Matches (e ∷ events) s b m =
    run-Matches events (toaster_step s e) (board_step b e) (step-Matches e s b m)

abbrev pub blank : Board
blank = record { now = 0; count = 0; fired = [] }

mounted-Matches : Matches mounted blank
mounted-Matches = record {
  listening = refl;
  now = refl;
  count = refl;
  items = refl;
  timers = refl;
  counted = tt;
  past = tt;
  ordered = tt;
}

-- After any toasts that are fired and any times that pass, the toaster shows exactly the toasts that
-- were fired less than 6000 ms ago, in the order in which they were fired, whatever its timers and ids
-- are.
pub run_events-board :
    (events : List Event)
    → (run_events mounted events).items ≡ map (λ f. f.item) (run_board blank events).fired
run_events-board events = (run-Matches events mounted blank mounted-Matches).items

none_young :
    (now ms : ℕ) (fs : List Fired)
    → 6000 ≤ ms
    → All (λ f. f.born ≤ now) fs
    → select (is_young (now + ms)) fs ≡ []
none_young now ms [] long h = refl
none_young now ms (f ∷ fs) long h =
    let old : is_young (now + ms) f ≡ false = ground (arith, long, h.0) in
    rw (old, none_young now ms fs long h.1)

-- Whatever was fired before, once 6000 ms or more have passed without a new toast, none is shown and no
-- timer is left.
pub wait-clears :
    (events : List Event) (ms : ℕ)
    → 6000 ≤ ms
    → ((wait ms (run_events mounted events)).items ≡ [])
      × ((wait ms (run_events mounted events)).timers ≡ [])
unfolding board_step
wait-clears events ms long =
    let m = run-Matches events mounted blank mounted-Matches in
    let b = run_board blank events in
    let after = wait-Matches ms (run_events mounted events) b m in
    let none = none_young b.now ms b.fired long m.past in
    (after.items ∙ ap (map (λ f. f.item)) none, after.timers ∙ ap (map timer_of) none)
