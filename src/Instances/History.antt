-- ===== src/Instances/History.antt =====
-- Sequences of requests to the routes of frontend/app/api/instances.
use mathlib.Core.Path.{subst}
use foxplay_game.Common.{ℕ, String, List, [], ◌∷◌, Option, ◌≡◌, sym, Bool-cases, inl, inr, arith}
use foxplay_game.Json.{Json}
use foxplay_game.Models.{is_instance_id}
use foxplay_game.Instances.Table.{stop_all, set_state, soft_delete}
use foxplay_game.Server.{InstanceRow, World, Fetched, Res, Response, query}
use foxplay_game.Server.Manager.{FetchRequest}
use foxplay_game.Instances.Invariant.{
  IsValid, AreApart, IsValid-AreApart, stop_all-IsValid, set_state-IsValid, soft_delete-IsValid,
}
use foxplay_game.Instances.Create.{Posted, Posted-IsValid, post_instance-Posted}
use foxplay_game.Instances.Lifecycle.{
  start_instance-Acted, stop_instance-Acted, delete_instance-Acted, Acted-rows, malformed_id,
}
use foxplay_game.Instances.Listing.{list_instances-Keeps}
use foxplay_game.Instances.{
  list_instances, get_instance, delete_instance, start_instance, stop_instance, post_instance,
}

-- A request, with the clock and the new id that the database would use for it.
pub data Call : Type 0 where
  list : Call
  post : ℕ → String → Json → Call
  show_one start stop : String → Call
  delete : ℕ → String → Call

-- A property of the rows that each statement of the routes keeps.
pub record IsKept (P : List InstanceRow → Type 0) : Type 0 where
  pub stopped : (ids : List String) (rows : List InstanceRow) → P rows → P (stop_all ids rows)
  pub set : (id s : String) (rows : List InstanceRow) → P rows → P (set_state id s rows)
  pub deleted :
      (id : String) (now : ℕ) (rows : List InstanceRow) → P rows → P (soft_delete id now rows)
  pub posted :
      {fresh : String} {now : ℕ} {rows rows' : List InstanceRow} {r : Response String}
      → Posted fresh now rows rows' r
      → P rows
      → P rows'

IsValid-IsKept : IsKept IsValid
IsValid-IsKept = record {
  stopped = stop_all-IsValid;
  set = set_state-IsValid;
  deleted = soft_delete-IsValid;
  posted = Posted-IsValid;
}

module _ {S : Type 0} (fetch : FetchRequest → S → Fetched × S) (parse : String → Option Json)
    (zod : String → Option Json → String) where
  abbrev Handled : Type 0
  Handled = Res (Response (Unit {0})) × World S

  unfoldable pub handle : Call → World S → World S
  handle list w = (list_instances fetch parse zod 0 "" w).1
  handle (post now fresh body) w = (post_instance fetch parse zod now fresh body w).1
  handle (show_one id) w = (get_instance fetch parse zod 0 "" id w).1
  handle (start id) w = (start_instance fetch parse zod 0 "" id w).1
  handle (stop id) w = (stop_instance fetch parse zod 0 "" id w).1
  handle (delete now id) w = (delete_instance fetch parse zod now "" id w).1

  unfoldable pub handle_all : List Call → World S → World S
  unfolding handle
  handle_all [] w = w
  handle_all (c ∷ cs) w = handle_all cs (handle c w)

  get_instance-rows :
      (id : String) (w : World S)
      → (get_instance fetch parse zod 0 "" id w).1.instances ≡ w.instances
  unfolding get_instance query
  get_instance-rows id w = ground arith

  module _ (P : List InstanceRow → Type 0) (kept : IsKept P) where
    handle-IsKept : (c : Call) (w : World S) → P w.instances → P (handle c w).instances
    unfolding handle
    handle-IsKept list w v = list_instances-Keeps P kept.stopped fetch parse zod 0 "" w v
    handle-IsKept (post now fresh body) w v =
        let (_, _, posted) = post_instance-Posted fetch parse zod now fresh body w in
        kept.posted posted v
    handle-IsKept (show_one id) w v = subst P (sym (get_instance-rows id w)) v
    handle-IsKept (start id) w v = elim (Bool-cases (is_instance_id id)) [
      | inl h ↦
          let (_, _, acted) = start_instance-Acted fetch parse zod 0 "" id w h in
          Acted-rows P (kept.set id "running") acted v
      | inr h ↦
          subst (λ (p : Handled). P p.1.instances)
            (sym (malformed_id fetch parse zod 0 "" id w h).0) v
    ]
    handle-IsKept (stop id) w v = elim (Bool-cases (is_instance_id id)) [
      | inl h ↦
          let (_, _, acted) = stop_instance-Acted fetch parse zod 0 "" id w h in
          Acted-rows P (kept.set id "stopped") acted v
      | inr h ↦
          subst (λ (p : Handled). P p.1.instances)
            (sym (malformed_id fetch parse zod 0 "" id w h).1) v
    ]
    handle-IsKept (delete now id) w v = elim (Bool-cases (is_instance_id id)) [
      | inl h ↦
          let (_, _, acted) = delete_instance-Acted fetch parse zod now "" id w h in
          Acted-rows P (kept.deleted id now) acted v
      | inr h ↦
          subst (λ (p : Handled). P p.1.instances)
            (sym (malformed_id fetch parse zod now "" id w h).2) v
    ]

    pub handle_all-IsKept :
        (cs : List Call) (w : World S) → P w.instances → P (handle_all cs w).instances
    unfolding handle_all
    handle_all-IsKept [] w v = v
    handle_all-IsKept (c ∷ cs) w v = handle_all-IsKept cs (handle c w) (handle-IsKept c w v)

  -- After any sequence of requests, answered one after the other, from a table that satisfies the
  -- invariant (the empty one does), and whatever the database and the instance-manager do, the table
  -- satisfies it again: no two rows share an id, a port or an address, no two active rows share an
  -- owner and a name.
  pub handle_all-AreApart :
      (cs : List Call) (w : World S)
      → IsValid w.instances
      → IsValid (handle_all cs w).instances × AreApart (handle_all cs w).instances
  handle_all-AreApart cs w v =
      let kept = handle_all-IsKept IsValid IsValid-IsKept cs w v in (kept, IsValid-AreApart _ kept)
