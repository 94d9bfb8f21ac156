-- ===== src/Editor/Pairs.antt =====
-- Backspace takes back the pair that an opening bracket or quote has inserted.
use foxplay_game.Common.{
  ℕ, zero, suc, ◌+◌, ◌-◌, ◌≤◌, true, false, ◌≡◌, ◌≢◌, refl, ap, ◌∙◌, arith, List, [], ◌∷◌, ◌++◌,
  Option, none, some, take, drop, take-append-drop, length, get_elem?,
}
use foxplay_game.Editor.{
  Area, unit, backspace, changed, caret, same_unit, pair, pair_of, replace, type_pair, type_unit,
  press_backspace, key_down,
}

take-insert : (p : ℕ) (v xs : List ℕ) → p ≤ length v → take p (take p v ++ xs) ≡ take p v
take-insert zero v xs h = refl
take-insert (suc p) [] xs h = absurd (omega arith)
take-insert (suc p) (c ∷ v) xs h = ap (λ l. c ∷ l) (take-insert p v xs (omega arith))

drop-insert :
    (p a b : ℕ) (v ys : List ℕ) → p ≤ length v → drop (suc (suc p)) (take p v ++ (a ∷ b ∷ ys)) ≡ ys
drop-insert zero a b v ys h = refl
drop-insert (suc p) a b [] ys h = absurd (omega arith)
drop-insert (suc p) a b (c ∷ v) ys h = drop-insert p a b v ys (omega arith)

get_elem-insert :
    (p a : ℕ) (v ys : List ℕ) → p ≤ length v → get_elem? (take p v ++ (a ∷ ys)) p ≡ some a
get_elem-insert zero a v ys h = refl
get_elem-insert (suc p) a [] ys h = absurd (omega arith)
get_elem-insert (suc p) a (c ∷ v) ys h = get_elem-insert p a v ys (omega arith)

get_elem-insert_next :
    (p a b : ℕ) (v ys : List ℕ)
    → p ≤ length v
    → get_elem? (take p v ++ (a ∷ b ∷ ys)) (suc p) ≡ some b
get_elem-insert_next zero a b v ys h = refl
get_elem-insert_next (suc p) a b [] ys h = absurd (omega arith)
get_elem-insert_next (suc p) a b (c ∷ v) ys h = get_elem-insert_next p a b v ys (omega arith)

inserted : List ℕ → ℕ → ℕ → ℕ → List ℕ
inserted v p opener closer = take p v ++ (opener ∷ closer ∷ drop p v)

same_unit_other : (o : Option ℕ) (c : ℕ) → o ≢ some c → same_unit o (some c) ≡ false
same_unit_other none c h = refl
same_unit_other (some a) c h = ground arith

typed :
    (v : List ℕ) (p opener closer : ℕ)
    → pair opener ≡ some closer
    → get_elem? v p ≢ some opener
    → type_unit opener (caret v p) ≡ changed (caret (inserted v p opener closer) (suc p))
unfolding type_unit type_pair inserted
typed v p opener closer e other = ground (arith, same_unit_other (get_elem? v p) opener other)

same_unit_refl : (o : Option ℕ) → same_unit o o ≡ true
same_unit_refl none = refl
same_unit_refl (some a) = ground arith

taken_back :
    (v : List ℕ) (p opener closer : ℕ)
    → pair opener ≡ some closer
    → p ≤ length v
    → press_backspace (caret (inserted v p opener closer) (suc p)) ≡ changed (caret v p)
unfolding press_backspace inserted
taken_back v p opener closer e h =
    let whole : take p (inserted v p opener closer)
          ++ drop (suc (suc p)) (inserted v p opener closer)
        ≡ v =
      ap (λ l. l ++ drop (suc (suc p)) (inserted v p opener closer)) (take-insert p v _ h)
      ∙ ap (λ l. take p v ++ l) (drop-insert p opener closer v _ h)
      ∙ take-append-drop p v in
    let before : get_elem? (inserted v p opener closer) (suc p - 1) ≡ some opener =
      ap (get_elem? (inserted v p opener closer)) (omega arith)
      ∙ get_elem-insert p opener v (closer ∷ drop p v) h in
    let after : get_elem? (inserted v p opener closer) (suc p) ≡ some closer =
      get_elem-insert_next p opener closer v (drop p v) h in
    let fits : same_unit (pair_of (get_elem? (inserted v p opener closer) (suc p - 1)))
          (get_elem? (inserted v p opener closer) (suc p))
        ≡ true =
      rw (before, after, e) (same_unit_refl (some closer)) in
    let left : replace (inserted v p opener closer) (suc p - 1) (suc p + 1) [] ≡ v =
      ap (λ q. take q (inserted v p opener closer) ++ drop (suc p + 1) (inserted v p opener closer))
        (omega arith)
      ∙ ap (λ q. take p (inserted v p opener closer) ++ drop q (inserted v p opener closer))
          {y = suc (suc p)} (omega arith)
      ∙ whole in
    ground (arith, fits, left)

-- Where the caret stands in a text and not before the same unit, Backspace after an opening bracket or
-- quote restores the text and the caret.
pub key_down-backspace :
    (v : List ℕ) (p opener closer : ℕ)
    → pair opener ≡ some closer
    → p ≤ length v
    → get_elem? v p ≢ some opener
    → (b : Area) × (key_down (unit opener) (caret v p) ≡ changed b)
      × (key_down backspace b ≡ changed (caret v p))
unfolding key_down
key_down-backspace v p opener closer e h other = (
  caret (inserted v p opener closer) (suc p),
  typed v p opener closer e other,
  taken_back v p opener closer e h,
)
