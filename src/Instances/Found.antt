-- ===== src/Instances/Found.antt =====
-- Rows that a listing shows, as a look-up by their id finds them.
pub mod Listed
use foxplay_game.Common.{
  String, Bool, false, List, [], ◌∷◌, map, some, ◌≡◌, refl, ◌∙◌, arith, Bool-cases, inl, inr,
  select, find, All, eq_refl, if◌then◌else◌, All-sort_desc,
}
use foxplay_game.Server.{InstanceRow}
use foxplay_game.Server.Manager
use foxplay_game.Instances.Table.{
  is_active, conflicts, update, is_active_id, is_among, with_state, stop_all, active_rows,
}
use foxplay_game.Instances.Invariant.{IsValid}
use foxplay_game.Instances.{InstanceListItem, list_item, is_stale, mark_stopped}

-- The table has an active row with the id and the name of the item.
abbrev pub IsThere : List InstanceRow → InstanceListItem → Type 0
IsThere rows i =
    (r : InstanceRow) × (find (is_active_id i.id) rows ≡ some r) × (r.id ≡ i.id) × (r.name ≡ i.name)

abbrev IsFirst : List InstanceRow → InstanceRow → Type 0
IsFirst rows r = find (is_active_id r.id) rows ≡ some r

IsFirst-behind :
    (x : InstanceRow) (xs rs : List InstanceRow)
    → All (λ q. conflicts x q ≡ false) rs
    → All (IsFirst xs) rs
    → All (IsFirst (x ∷ xs)) rs
unfolding conflicts
IsFirst-behind x xs [] apart h = tt
IsFirst-behind x xs (r ∷ rs) apart h =
    (ground (arith, h.0, apart.0), IsFirst-behind x xs rs apart.1 h.1)

All-select :
    {A : Type 0} (P : A → Type 0) (p : A → Bool) (xs : List A) → All P xs → All P (select p xs)
All-select P p [] h = tt
All-select P p (x ∷ xs) h = elim (Bool-cases (p x)) [
  | inl e ↦ rw e (h.0, All-select P p xs h.1)
  | inr e ↦ rw e (All-select P p xs h.1)
]

rows-IsFirst : (rows : List InstanceRow) → IsValid rows → All (IsFirst rows) (select is_active rows)
rows-IsFirst [] v = tt
rows-IsFirst (x ∷ xs) v =
    let rest =
      IsFirst-behind x xs (select is_active xs) (All-select _ is_active xs v.1)
        (rows-IsFirst xs v.2) in
    elim (Bool-cases (is_active x)) [
      | inl e ↦ rw e (ground (arith, eq_refl x.id), rest)
      | inr e ↦ rw e rest
    ]

map-IsThere :
    (rows rs : List InstanceRow) → All (IsFirst rows) rs → All (IsThere rows) (map list_item rs)
map-IsThere rows [] h = tt
map-IsThere rows (r ∷ rs) h = ((r, h.0, refl, refl), map-IsThere rows rs h.1)

pub active_rows-IsThere :
    (rows : List InstanceRow) → IsValid rows → All (IsThere rows) (map list_item (active_rows rows))
unfolding active_rows
active_rows-IsThere rows v = map-IsThere rows _ (All-sort_desc _ _ _ (rows-IsFirst rows v))

-- what an update finds, where it changes no id and deletes nothing
find-update :
    (p : InstanceRow → Bool) (s id : String) (rows : List InstanceRow) (r : InstanceRow)
    → find (is_active_id id) rows ≡ some r
    → find (is_active_id id) (update p (with_state s) rows)
      ≡ some (if p r then with_state s r else r)
unfolding update
find-update p s id [] r h = absurd (ground arith)
find-update p s id (x ∷ xs) r h = ground (arith, find-update p s id xs r)

stopped_row :
    (p : InstanceRow → Bool) (rows : List InstanceRow) (i : InstanceListItem)
    → IsThere rows i
    → IsThere (update p (with_state "stopped") rows) i
stopped_row p rows i (r, e, same, name) = elim (Bool-cases (p r)) [
  | inl h ↦ (with_state "stopped" r, find-update p "stopped" i.id rows r e ∙ rw h refl, same, name)
  | inr h ↦ (r, find-update p "stopped" i.id rows r e ∙ rw h refl, same, name)
]

IsThere-mark_stopped :
    (live : List String) (rows : List InstanceRow) (i : InstanceListItem)
    → IsThere rows i
    → IsThere rows (mark_stopped live i)
IsThere-mark_stopped live rows i h = elim (Bool-cases (is_stale live i)) [
  | inl e ↦ rw e h
  | inr e ↦ rw e h
]

pub All-stopped :
    (ids live : List String) (rows : List InstanceRow) (items : List InstanceListItem)
    → All (IsThere rows) items
    → All (IsThere (stop_all ids rows)) (map (mark_stopped live) items)
unfolding stop_all
All-stopped ids live rows [] h = tt
All-stopped ids live rows (i ∷ items) h = (
  IsThere-mark_stopped live _ i (stopped_row (is_among ids) rows i h.0),
  All-stopped ids live rows items h.1,
)
