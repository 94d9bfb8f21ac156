-- ===== src/Instances/Deleted/Listed.antt =====
-- The listings of frontend/app/api/instances after a deletion.
use foxplay_game.Common.{
  ℕ, String, false, List, [], ◌∷◌, map, Option, ◌≡◌, arith, inl, inr, Bool-cases, any, select, All,
  str_eq, All-sort_desc,
}
use foxplay_game.Json.{Json}
use foxplay_game.Server.{
  InstanceRow, World, Res, ok, thrown, Fetched, Response, Body, payload, error,
}
use foxplay_game.Server.Manager.{FetchRequest}
use foxplay_game.Instances.Table.{is_active, is_active_id, active_rows, stop_all}
use foxplay_game.Instances.{InstanceListItem, list_item, is_stale, mark_stopped, list_instances}
use foxplay_game.Instances.Found.Listed.{Shows, Answers, list_instances-Answers}
use foxplay_game.Instances.Deleted.{IsGone}

abbrev pub Lacks : String → Body (List InstanceListItem) → Type 0
Lacks id (payload items) = All (λ i. str_eq i.id id ≡ false) items
Lacks id (error text) = Unit

-- No item that the response lists has the id.
abbrev pub IsWithout : String → Res (Response (List InstanceListItem)) → Type 0
IsWithout id (ok q) = Lacks id q.body
IsWithout id (thrown e) = Unit

module _ (id : String) where
  abbrev IsOther : List InstanceRow → InstanceListItem → Type 0
  IsOther rows i = str_eq i.id id ≡ false

  others_stopped :
      (ids live : List String) (rows : List InstanceRow) (items : List InstanceListItem)
      → All (IsOther rows) items
      → All (IsOther (stop_all ids rows)) (map (mark_stopped live) items)
  others_stopped ids live rows [] h = tt
  others_stopped ids live rows (i ∷ items) h = elim (Bool-cases (is_stale live i)) [
    | inl e ↦ rw e (h.0, others_stopped ids live rows items h.1)
    | inr e ↦ rw e (h.0, others_stopped ids live rows items h.1)
  ]

  select_others :
      (rows : List InstanceRow)
      → any (is_active_id id) rows ≡ false
      → All (λ r. str_eq r.id id ≡ false) (select is_active rows)
  select_others [] h = tt
  select_others (r ∷ rows) h = elim (Bool-cases (is_active r)) [
    | inl e ↦ rw e (ground arith, select_others rows (ground arith))
    | inr e ↦ rw e (select_others rows (ground arith))
  ]

  map-IsOther :
      (rows rs : List InstanceRow)
      → All (λ r. str_eq r.id id ≡ false) rs
      → All (IsOther rows) (map list_item rs)
  map-IsOther rows [] h = tt
  map-IsOther rows (r ∷ rs) h = (h.0, map-IsOther rows rs h.1)

  active_rows-IsOther :
      (rows : List InstanceRow)
      → any (is_active_id id) rows ≡ false
      → All (IsOther rows) (map list_item (active_rows rows))
  unfolding active_rows
  active_rows-IsOther rows h = map-IsOther rows _ (All-sort_desc _ _ _ (select_others rows h))

module _ {S : Type 0} (fetch : FetchRequest → S → Fetched × S) (parse : String → Option Json)
    (zod : String → Option Json → String) (now : ℕ) (fresh id : String) where
  pub list_instances-IsWithout :
      (w : World S)
      → IsGone id w.instances
      → IsWithout id (list_instances fetch parse zod now fresh w).0
  list_instances-IsWithout w h = without (list_instances fetch parse zod now fresh w) (
      list_instances-Answers (IsOther id) (others_stopped id) fetch parse zod now fresh w
        (active_rows-IsOther id w.instances h.1))
    where
      lacks :
          (b : Body (List InstanceListItem)) (v : World S)
          → Shows (IsOther id) (others_stopped id) fetch parse zod now fresh b v
          → Lacks id b
      lacks (payload items) v k = k
      lacks (error text) v k = tt

      without :
          (p : Res (Response (List InstanceListItem)) × World S)
          → Answers (IsOther id) (others_stopped id) fetch parse zod now fresh p
          → IsWithout id p.0
      without (ok q, v) k = lacks q.body v k
      without (thrown e, v) k = tt
