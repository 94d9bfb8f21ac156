-- ===== src/Controller/Schedule/Loops.antt =====
-- controller/src/index.ts, `backupLoop` and `pruneLoop`: rounds without an end, each of which waits,
-- runs a job and logs what it throws. Time is local, in milliseconds since some midnight, and each day
-- has 24 hours; `took` is how long a job takes from a state.
use foxplay_game.Common.{
  ℕ, zero, suc, ◌+◌, ◌*◌, ◌/◌, ◌%◌, ◌<◌, String, List, [], ◌∷◌, ◌++◌, none, ◌≡◌, sym, ◌∙◌, arith,
}
use mathlib.Core.List.{append_assoc, append-nil}
use foxplay_game.Controller.Schedule.{hour, backup_delay}
use foxplay_game.Controller.Backup.{Services, Outcome, threw, backup, prune}

-- the clock, the state of the services, what was logged, and when each job of the loop began
pub record Loop (S : Type 0) : Type 0 where
  pub now : ℕ
  pub state : S
  pub errors : List String
  pub starts : List ℕ

abbrev pub log_error : Outcome Unit → List String → List String
log_error (Outcome.done u) errors = errors
log_error (threw message) errors = errors ++ (message ∷ [])

module _ {S : Type 0} (took : S → ℕ) where
  -- `await new Promise(…)` for `ms`, and the `try` around the job
  abbrev pub run_after : ℕ → (S → Outcome Unit × S) → Loop S → Loop S
  run_after ms job l =
      let start = l.now + ms in
      let (outcome, s) = job l.state in
      record {
        now = start + took l.state;
        state = s;
        errors = log_error outcome l.errors;
        starts = l.starts ++ (start ∷ []);
      }

  module _ (sv : Services S) where
    unfoldable pub backup_round : Loop S → Loop S
    unfolding backup backup_delay
    backup_round l = run_after (backup_delay (l.now % (24 * hour))) (backup sv none) l

    unfoldable pub backup_loop : ℕ → Loop S → Loop S
    unfolding backup_round
    backup_loop zero l = l
    backup_loop (suc rounds) l = backup_loop rounds (backup_round l)

    unfoldable pub prune_loop : ℕ → Loop S → Loop S
    unfolding prune
    prune_loop zero l = l
    prune_loop (suc rounds) l = prune_loop rounds (run_after (15 * 60 * 1000) (prune sv) l)

-- every noon and midnight from `start` on
abbrev pub half_days : ℕ → ℕ → List ℕ
half_days zero start = []
half_days (suc n) start = start ∷ half_days n (start + 12 * hour)

-- the first noon or midnight after a time
abbrev pub next_half_day : ℕ → ℕ
next_half_day now = (now / (12 * hour) + 1) * (12 * hour)

delay-next_half_day : (now : ℕ) → now + backup_delay (now % (24 * hour)) ≡ next_half_day now
unfolding backup_delay
delay-next_half_day now = ground arith

later_half_day :
    (now t : ℕ)
    → t < 12 * hour
    → next_half_day (next_half_day now + t) ≡ next_half_day now + 12 * hour
later_half_day now t h = ground arith

module _ {S : Type 0} (took : S → ℕ) (sv : Services S) (short : (s : S) → took s < 12 * hour) where
  -- Where no backup takes half a day, the loop begins a backup at each noon and each midnight after it
  -- was entered, one after the other without an end or a gap, whether the backups throw or not.
  pub backup_loop-starts :
      (rounds : ℕ) (l : Loop S)
      → (backup_loop took sv rounds l).starts ≡ l.starts ++ half_days rounds (next_half_day l.now)
  unfolding backup_loop
  backup_loop-starts zero l = sym (append-nil l.starts)
  backup_loop-starts (suc rounds) l =
      let start = l.now + backup_delay (l.now % (24 * hour)) in
      let at : start ≡ next_half_day l.now = delay-next_half_day l.now in
      let next : next_half_day (start + took l.state) ≡ next_half_day l.now + 12 * hour =
        rw at (later_half_day l.now (took l.state) (short l.state)) in
      backup_loop-starts rounds (backup_round took sv l)
      ∙ append_assoc l.starts (start ∷ []) (half_days rounds (next_half_day (start + took l.state)))
      ∙ rw (next, at)
