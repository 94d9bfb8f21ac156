-- ===== src/Client/Toasts/Shown/Timers.antt =====
-- The timers of frontend/components/Toast.tsx, when they are due.
use mathlib.Core.List.{append_assoc}
use foxplay_game.Common.{
  ℕ, ◌+◌, ◌<◌, Bool, true, false, not, ◌≡◌, refl, sym, ap, ◌∙◌, inl, inr, arith, List, [], ◌∷◌,
  ◌++◌, map, select, leb, ◌==◌, All, All-append, All-imp, if◌then◌else◌, Bool-cases,
}
use foxplay_game.Client.Toasts.{ToastItem, Timer, dismiss, run_timers}
use foxplay_game.Client.Toasts.Shown.Ages.{Fired, is_young, timer_of, AreOrdered}

dismiss-before :
    (id : ℕ) (before items : List ToastItem)
    → All (λ i. i.id < id) before
    → dismiss id (before ++ items) ≡ before ++ dismiss id items
dismiss-before id [] items h = refl
dismiss-before id (i ∷ before) items h =
    let other : (i.id == id) ≡ false = ground (arith, h.0) in
    rw (other, dismiss-before id before items h.1)

dismiss-after :
    (id : ℕ) (after : List Fired)
    → All (λ f. id < f.item.id) after
    → dismiss id (map (λ f. f.item) after) ≡ map (λ f. f.item) after
dismiss-after id [] h = refl
dismiss-after id (f ∷ after) h =
    let other : (f.item.id == id) ≡ false = ground (arith, h.0) in
    rw (other, dismiss-after id after h.1)

same_id : (n : ℕ) → (n == n) ≡ true
same_id n = ground arith

dismiss-at :
    (f : Fired) (before : List ToastItem) (after : List Fired)
    → All (λ i. i.id < f.item.id) before
    → All (λ g. f.item.id < g.item.id) after
    → dismiss f.item.id (before ++ (f.item ∷ map (λ f. f.item) after))
      ≡ before ++ map (λ f. f.item) after
dismiss-at f before after h k =
    dismiss-before f.item.id before _ h
    ∙ ap (λ rest. before ++ rest) (rw (same_id f.item.id) (dismiss-after f.item.id after k))

All-both :
    {A : Type 0} (P Q : A → Type 0) (xs : List A) → All P xs → All Q xs → All (λ x. P x × Q x) xs
All-both P Q [] h k = tt
All-both P Q (x ∷ xs) h k = ((h.0, k.0), All-both P Q xs h.1 k.1)

timer-step :
    (now : ℕ) (t : Timer) (timers : List Timer) (items : List ToastItem) {b : Bool}
    → leb t.due now ≡ b
    → run_timers now (t ∷ timers) items
      ≡ run_timers now timers (if b then dismiss t.id items else items)
unfolding run_timers
timer-step now t timers items e =
    ap (λ b. run_timers now timers (if b then dismiss t.id items else items)) e

-- The timers that are due leave exactly the toasts that are young, behind those whose timers are done.
pub run_timers-young :
    (now : ℕ) (fs : List Fired) (before : List ToastItem)
    → AreOrdered fs
    → All (λ f. All (λ i. i.id < f.item.id) before) fs
    → run_timers now (map timer_of fs) (before ++ map (λ f. f.item) fs)
      ≡ before ++ map (λ f. f.item) (select (is_young now) fs)
unfolding run_timers
run_timers-young now [] before o h = refl
run_timers-young now (f ∷ fs) before o h = elim (Bool-cases (leb (f.born + 6000) now)) [
  | inl e ↦
      let old : is_young now f ≡ false = ground (arith, e) in
      timer-step now (timer_of f) (map timer_of fs) _ e
      ∙ ap (run_timers now (map timer_of fs)) (dismiss-at f before fs h.0 o.0)
      ∙ run_timers-young now fs before o.1 h.1
      ∙ rw old
  | inr e ↦
      let young : is_young now f ≡ true = ground (arith, e) in
      timer-step now (timer_of f) (map timer_of fs) _ e
      ∙ ap (run_timers now (map timer_of fs)) (sym (append_assoc before (f.item ∷ []) _))
      ∙ run_timers-young now fs (before ++ (f.item ∷ [])) o.1 (
          All-imp (λ g q. All-append (λ i. i.id < g.item.id) before (f.item ∷ []) q.0 (q.1, tt)) fs
            (All-both _ _ fs h.1 o.0))
      ∙ append_assoc before (f.item ∷ []) _
      ∙ rw young
]

pub nothing_before : (fs : List Fired) → All (λ f. All (λ (i : ToastItem). i.id < f.item.id) []) fs
nothing_before [] = tt
nothing_before (f ∷ fs) = (tt, nothing_before fs)

pub waiting_timers :
    (now : ℕ) (fs : List Fired)
    → select (λ t. not (leb t.due now)) (map timer_of fs) ≡ map timer_of (select (is_young now) fs)
waiting_timers now [] = refl
waiting_timers now (f ∷ fs) = elim (Bool-cases (leb (f.born + 6000) now)) [
  | inl e ↦
      let old : is_young now f ≡ false = ground (arith, e) in rw (e, old, waiting_timers now fs)
  | inr e ↦
      let young : is_young now f ≡ true = ground (arith, e) in rw (e, young, waiting_timers now fs)
]

module _ {A : Type 0} (P : A → Type 0) (p : A → Bool) where
  pub All-select : (xs : List A) → All P xs → All P (select p xs)
  All-select [] h = tt
  All-select (x ∷ xs) h = elim (Bool-cases (p x)) [
    | inl e ↦ rw e (h.0, All-select xs h.1)
    | inr e ↦ rw e (All-select xs h.1)
  ]

pub select-AreOrdered :
    (p : Fired → Bool) (fs : List Fired) → AreOrdered fs → AreOrdered (select p fs)
select-AreOrdered p [] h = tt
select-AreOrdered p (f ∷ fs) h = elim (Bool-cases (p f)) [
  | inl e ↦ rw e (All-select _ p fs h.0, select-AreOrdered p fs h.1)
  | inr e ↦ rw e (select-AreOrdered p fs h.1)
]

pub append-AreOrdered :
    (fs : List Fired) (g : Fired)
    → AreOrdered fs
    → All (λ f. f.item.id < g.item.id) fs
    → AreOrdered (fs ++ (g ∷ []))
append-AreOrdered [] g h k = (tt, tt)
append-AreOrdered (f ∷ fs) g h k =
    (All-append _ fs (g ∷ []) h.0 (k.0, tt), append-AreOrdered fs g h.1 k.1)
