-- ===== src/Instances/Found/Listed.antt =====
-- GET frontend/app/api/instances, and what it leaves to be looked up.
use mathlib.Core.Path.{subst}
use foxplay_game.Common.{
  ℕ, String, List, ◌∷◌, map, Option, ◌≡◌, refl, sym, arith, Option-cases, inl, inr, select, All,
}
use foxplay_game.Json.{Json}
use foxplay_game.Server.{
  InstanceRow, World, Res, ok, thrown, Fetched, query, next_fault, later_faults, reply, Response,
  Body, payload, error, fail,
}
use foxplay_game.Server.Manager
use foxplay_game.Server.Laws.{IsStable, Keeps-running}
use foxplay_game.Server.Manager.{FetchRequest}
use foxplay_game.Instances.Listing.{List-cases}
use foxplay_game.Instances.Table.{active_rows, stop_all}
use foxplay_game.Instances.Invariant.{IsValid}
use foxplay_game.Instances.{
  InstanceListItem, list_item, is_stale, mark_stopped, item_ids, mark_stale, reconcile, shown_items,
  list_body, list_instances,
}
use foxplay_game.Instances.Found.{IsThere, active_rows-IsThere, All-stopped}

-- `R` relates the rows to an item, and marking as stopped keeps it.
module _ (R : List InstanceRow → InstanceListItem → Type 0)
    (stopped : (ids live : List String) (rows : List InstanceRow) (items : List InstanceListItem)
      → All (R rows) items
      → All (R (stop_all ids rows)) (map (mark_stopped live) items))
    {S : Type 0} (fetch : FetchRequest → S → Fetched × S) (parse : String → Option Json)
    (zod : String → Option Json → String) (now : ℕ) (fresh : String) where
  -- what a step has returned, and the rows where it has thrown
  abbrev pub Shown : List InstanceRow → Res (List InstanceListItem) × World S → Type 0
  Shown rows (ok items, w) = All (R w.instances) items
  Shown rows (thrown e, w) = w.instances ≡ rows

  abbrev Same : List InstanceRow → World S → Type 0
  Same rows w = w.instances ≡ rows

  Same-IsStable : (rows : List InstanceRow) → IsStable (Same rows)
  Same-IsStable rows = record { faults = λ w fs h. h; remote = λ w s h. h }

  mark_stale-Shown :
      (items : List InstanceListItem) (live : List String) (w : World S)
      → All (R w.instances) items
      → Shown w.instances (mark_stale fetch parse zod now fresh items live w)
  unfolding mark_stale query
  mark_stale-Shown items live w h = elim (List-cases (select (is_stale live) items)) [
    | inl e ↦ rw (e, mark_stale) h
    | inr (stale, more, e) ↦ elim (Option-cases (next_fault w.faults)) [
      | inl calm ↦ ground (arith, stopped (item_ids (stale ∷ more)) live w.instances items h)
      | inr (f, fault) ↦ ground arith
    ]
  ]

  reconcile-Shown :
      (items : List InstanceListItem) (w : World S)
      → All (R w.instances) items
      → Shown w.instances (reconcile fetch parse zod now fresh items w)
  unfolding reconcile
  reconcile-Shown items w h =
      after (Manager.running fetch parse w)
        (Keeps-running fetch parse (Same w.instances) (Same-IsStable w.instances) w refl)
    where
      after :
          (p : Res (List String) × World S)
          → p.1.instances ≡ w.instances
          → Shown w.instances (elim p.0 as (λ _. Res (List InstanceListItem) × World S) [
            | ok live ↦ mark_stale fetch parse zod now fresh items live p.1
            | thrown e ↦ (thrown e, p.1)
          ])
      after (ok live, v) same =
          subst (λ rows. Shown rows (mark_stale fetch parse zod now fresh items live v)) same
            (mark_stale-Shown items live v (subst (λ rows. All (R rows) items) (sym same) h))
      after (thrown e, v) same = same

  shown_items-R :
      (items : List InstanceListItem) (w : World S)
      → All (R w.instances) items
      → let (r, v) = shown_items fetch parse zod now fresh items w in
        (shown : List InstanceListItem) × (r ≡ ok shown) × All (R v.instances) shown
  unfolding shown_items
  shown_items-R items w h =
      after (reconcile fetch parse zod now fresh items w) (reconcile-Shown items w h)
    where
      after :
          (p : Res (List InstanceListItem) × World S)
          → Shown w.instances p
          → let q : Res (List InstanceListItem) × World S =
              (elim p.0 as (λ _. Res (List InstanceListItem) × World S) [
                | ok a ↦ (ok a, p.1)
                | thrown e ↦ (ok items, p.1)
              ]) in
            (shown : List InstanceListItem) × (q.0 ≡ ok shown) × All (R q.1.instances) shown
      after (ok shown, v) k = (shown, refl, k)
      after (thrown e, v) same = (items, refl, subst (λ rows. All (R rows) items) (sym same) h)

  abbrev pub Shows : Body (List InstanceListItem) → World S → Type 0
  Shows (payload items) w = All (R w.instances) items
  Shows (error text) w = Unit

  abbrev pub Answers : Res (Response (List InstanceListItem)) × World S → Type 0
  Answers (ok r, w) = Shows r.body w
  Answers (thrown e, w) = Unit

  pub list_instances-Answers :
      (w : World S)
      → All (R w.instances) (map list_item (active_rows w.instances))
      → Answers (list_instances fetch parse zod now fresh w)
  unfolding list_instances list_body query
  list_instances-Answers w h0 = elim (Option-cases (next_fault w.faults)) [
    | inr (f, fault) ↦
        let down : list_instances fetch parse zod now fresh w
            ≡ (ok (fail 500 "query failed"), record w { faults = later_faults w.faults }) =
          ground arith in
        subst Answers (sym down) tt
    | inl calm ↦
        let w0 : World S = record w { faults = later_faults w.faults } in
        let items : List InstanceListItem = map list_item (active_rows w.instances) in
        let (shown, e, h) = shown_items-R items w0 h0 in
        let up : list_instances fetch parse zod now fresh w
            ≡ (ok (reply 200 shown), (shown_items fetch parse zod now fresh items w0).1) =
          ground arith in
        subst Answers (sym up) h
  ]

module _ {S : Type 0} (fetch : FetchRequest → S → Fetched × S) (parse : String → Option Json)
    (zod : String → Option Json → String) (now : ℕ) (fresh : String) where
  -- what a listing that answers with items leaves behind
  pub list_instances-IsThere :
      (w w' : World S) (items : List InstanceListItem)
      → IsValid w.instances
      → list_instances fetch parse zod now fresh w ≡ (ok (reply 200 items), w')
      → All (IsThere w'.instances) items
  list_instances-IsThere w w' items v e =
      subst (Answers IsThere All-stopped fetch parse zod now fresh) e (
        list_instances-Answers IsThere All-stopped fetch parse zod now fresh w
          (active_rows-IsThere w.instances v))
