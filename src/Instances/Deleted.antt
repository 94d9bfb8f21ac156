-- ===== src/Instances/Deleted.antt =====
-- What DELETE of frontend/app/api/instances/[id] leaves for good.
pub mod Listed
pub mod Forever
use mathlib.Core.Path.{subst}
use foxplay_game.Common.{
  ℕ, String, Bool, true, false, List, [], ◌∷◌, ◌≡◌, refl, sym, ◌∙◌, arith, inl, inr, Bool-cases,
  any, All, str_eq, eq_iff,
}
use foxplay_game.Server.{InstanceRow, Response}
use foxplay_game.Instances.Table.{
  is_active, conflicts, update, set_state, soft_delete, stop_all, has_id, is_active_id, is_among,
  with_state, deleted_now,
}
use foxplay_game.Instances.{new_row}
use foxplay_game.Instances.Create.{Posted, refused, recorded}
use foxplay_game.Instances.History.{IsKept}

-- Rows have the id, and none of them is active.
abbrev pub IsGone : String → List InstanceRow → Type 0
IsGone id rows = (any (has_id id) rows ≡ true) × (any (is_active_id id) rows ≡ false)

module _ (id : String) (p : InstanceRow → Bool) (f : InstanceRow → InstanceRow)
    (same_id : (r : InstanceRow) → (f r).id ≡ r.id)
    (no_revival : (r : InstanceRow) → is_active (f r) ≡ true → is_active r ≡ true) where
  any-update : (rows : List InstanceRow) → any (has_id id) (update p f rows) ≡ any (has_id id) rows
  unfolding update
  any-update [] = refl
  any-update (r ∷ rows) = ground (arith, same_id r, any-update rows)

  none-update :
      (rows : List InstanceRow)
      → any (is_active_id id) rows ≡ false
      → any (is_active_id id) (update p f rows) ≡ false
  unfolding update
  none-update [] h = refl
  none-update (r ∷ rows) h = ground (arith, same_id r, no_revival r, none-update rows)

  update-IsGone : (rows : List InstanceRow) → IsGone id rows → IsGone id (update p f rows)
  update-IsGone rows h = (any-update rows ∙ h.0, none-update rows h.1)

-- The deletion of a row that is there.
pub soft_delete-IsGone :
    (id : String) (now : ℕ) (rows : List InstanceRow)
    → any (has_id id) rows ≡ true
    → IsGone id (soft_delete id now rows)
unfolding soft_delete
soft_delete-IsGone id now rows h = (
  any-update id (is_active_id id) (deleted_now now) (λ r. refl) (λ r e. cc) rows ∙ h,
  none_left rows,
)
  where
    none_left :
        (qs : List InstanceRow)
        → any (is_active_id id) (update (is_active_id id) (deleted_now now) qs) ≡ false
    none_left [] = refl
    none_left (q ∷ qs) = ground (arith, none_left qs)

-- A new row does not have the id of one that is there.
fresh-ne :
    (id : String) (row : InstanceRow) (rows : List InstanceRow)
    → All (λ q. conflicts row q ≡ false) rows
    → any (has_id id) rows ≡ true
    → str_eq row.id id ≡ false
unfolding conflicts
fresh-ne id row [] apart h = absurd (ground arith)
fresh-ne id row (q ∷ qs) apart h = elim (Bool-cases (str_eq q.id id)) [
  | inl e ↦ ground (arith, eq_iff q.id id, apart.0)
  | inr e ↦ fresh-ne id row qs apart.1 (ground arith)
]

module _ (id : String) where
  new_row-IsGone :
      {fresh : String} {now : ℕ} {rows rows' : List InstanceRow} {r : Response String}
      → Posted fresh now rows rows' r
      → IsGone id rows
      → IsGone id rows'
  new_row-IsGone (refused same _) h = subst (IsGone id) (sym same) h
  new_row-IsGone {fresh} {now} {rows} (recorded input slot s at room apart left _) h =
      let other = fresh-ne id (new_row fresh now input slot) rows apart h.0 in
      subst (IsGone id) (sym left) (ground arith, ground arith)

  pub IsGone-IsKept : IsKept (IsGone id)
  IsGone-IsKept = record {
    stopped = λ ids rows h.
        unfold stop_all in
        update-IsGone id (is_among ids) (with_state "stopped") (λ r. refl) (λ r e. e) rows h;
    set = λ j s rows h.
        unfold set_state in
        update-IsGone id (has_id j) (with_state s) (λ r. refl) (λ r e. e) rows h;
    deleted = λ j now rows h.
        unfold soft_delete in
        update-IsGone id (is_active_id j) (deleted_now now) (λ r. refl) (λ r e. cc) rows h;
    posted = new_row-IsGone;
  }
