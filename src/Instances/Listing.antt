-- ===== src/Instances/Listing.antt =====
-- GET frontend/app/api/instances: the reconciliation with what the manager runs.
use foxplay_game.Common.{
  ℕ, String, Bool, true, false, not, ◌&&◌, List, [], ◌∷◌, map, Option, none, ◌≡◌, refl, sym, arith,
  Bool-cases, inl, inr, ◌⊎◌, Option-cases, any, select, All, str_eq,
}
use foxplay_game.Json.{Json}
use foxplay_game.Server.{
  InstanceRow, World, ok, query, reply, fail, Fetched, ◌>>=◌, next_fault, later_faults, pure,
}
use foxplay_game.Server.Manager
use foxplay_game.Server.Manager.{FetchRequest}
use foxplay_game.Server.Laws.{
  IsStable, Keeps, Keeps->>=, Keeps-try_catch, Keeps-query, Keeps-running,
}
use foxplay_game.Instances.Table.{active_rows, stop_all}
use foxplay_game.Instances.{
  InstanceListItem, list_item, is_stale, mark_stopped, item_ids, read_rows, mark_stale, reconcile,
  shown_items, list_body, list_instances,
}

-- Nothing is shown as running that the manager does not run.
abbrev pub IsLive : List String → InstanceListItem → Type 0
IsLive live r = (str_eq r.state "running" ≡ true) → any (str_eq r.id) live ≡ true

live_unless : (a b : Bool) → (a && not b) ≡ false → a ≡ true → b ≡ true
live_unless a true h k = refl
live_unless true false h k = sym h
live_unless false false h k = k

not_stale-IsLive :
    (live : List String) (r : InstanceListItem) → is_stale live r ≡ false → IsLive live r
not_stale-IsLive live r h = live_unless (str_eq r.state "running") (any (str_eq r.id) live) h

mark_stopped-IsLive :
    (live : List String) (r : InstanceListItem) → IsLive live (mark_stopped live r)
mark_stopped-IsLive live r = elim (Bool-cases (is_stale live r)) [
  | inl e ↦ rw e (λ h. absurd (ground arith))
  | inr e ↦ rw e (not_stale-IsLive live r e)
]

map-IsLive :
    (live : List String) (rows : List InstanceListItem)
    → All (IsLive live) (map (mark_stopped live) rows)
map-IsLive live [] = tt
map-IsLive live (r ∷ rows) = (mark_stopped-IsLive live r, map-IsLive live rows)

none_stale-IsLive :
    (live : List String) (rows : List InstanceListItem)
    → select (is_stale live) rows ≡ []
    → All (IsLive live) rows
none_stale-IsLive live [] h = tt
none_stale-IsLive live (r ∷ rows) h = elim (Bool-cases (is_stale live r)) [
  | inl e ↦ absurd (ground arith)
  | inr e ↦ (not_stale-IsLive live r e, none_stale-IsLive live rows (ground arith))
]

pub List-cases :
    {A : Type 0} (xs : List A) → (xs ≡ []) ⊎ ((x : A) × (rest : List A) × (xs ≡ x ∷ rest))
List-cases [] = inl refl
List-cases (x ∷ rest) = inr (x, rest, refl)

-- `P` holds of the rows, and stopping some of them keeps it.
module _ (P : List InstanceRow → Type 0)
    (stopped : (ids : List String) (rows : List InstanceRow) → P rows → P (stop_all ids rows))
    {S : Type 0} (fetch : FetchRequest → S → Fetched × S) (parse : String → Option Json)
    (zod : String → Option Json → String) (now : ℕ) (fresh : String) where
  abbrev Holds : World S → Type 0
  Holds w = P w.instances

  Holds-IsStable : IsStable {S = S} Holds
  Holds-IsStable = record { faults = λ w fs h. h; remote = λ w s h. h }

  mark_stale-Keeps :
      (rows : List InstanceListItem) (live : List String)
      → Keeps Holds (mark_stale fetch parse zod now fresh rows live)
  unfolding mark_stale query
  mark_stale-Keeps rows live w v = elim (List-cases (select (is_stale live) rows)) [
    | inl e ↦ rw (e, mark_stale) v
    | inr (stale, more, e) ↦ elim (Option-cases (next_fault w.faults)) [
      | inl calm ↦ ground (arith, stopped (item_ids (stale ∷ more)) w.instances v)
      | inr (f, fault) ↦ ground arith
    ]
  ]

  shown_items-Keeps :
      (rows : List InstanceListItem) → Keeps Holds (shown_items fetch parse zod now fresh rows)
  unfolding shown_items reconcile
  shown_items-Keeps rows =
      Keeps-try_catch Holds (reconcile fetch parse zod now fresh rows) (λ _. pure rows)
        (Keeps->>= Holds (Manager.running fetch parse) (mark_stale fetch parse zod now fresh rows)
          (Keeps-running fetch parse Holds Holds-IsStable) (mark_stale-Keeps rows))
        (λ _ w v. v)

  pub list_instances-Keeps : Keeps Holds (list_instances fetch parse zod now fresh)
  unfolding list_instances list_body
  list_instances-Keeps =
      Keeps-try_catch Holds (list_body fetch parse zod now fresh)
        (λ _. pure (fail 500 "query failed"))
        (Keeps->>= Holds
          (read_rows (λ rows. map list_item (active_rows rows))
            >>= shown_items fetch parse zod now fresh)
          (λ shown. pure (reply 200 shown))
          (Keeps->>= Holds (read_rows (λ rows. map list_item (active_rows rows)))
            (shown_items fetch parse zod now fresh) (Keeps-query Holds _ Holds-IsStable (λ w h. h))
            shown_items-Keeps)
          (λ shown w v. v))
        (λ _ w v. v)

module _ {S : Type 0} (fetch : FetchRequest → S → Fetched × S) (parse : String → Option Json)
    (zod : String → Option Json → String) (now : ℕ) (fresh : String) where
  -- Where the first two statements of the listing are executed and the manager names the instances
  -- `live` that run, the response is 200 and shows no instance as running that is not among them.
  pub list_instances-IsLive :
      (w : World S) (live : List String)
      → next_fault w.faults ≡ none
      → (v : World S)
      → Manager.running fetch parse (record w { faults = later_faults w.faults }) ≡ (ok live, v)
      → next_fault v.faults ≡ none
      → let (r, w') = list_instances fetch parse zod now fresh w in
        (items : List InstanceListItem) × (r ≡ ok (reply 200 items)) × All (IsLive live) items
  unfolding list_instances list_body shown_items reconcile mark_stale query
  list_instances-IsLive w live calm v ran calm_again =
      let rows : List InstanceListItem = map list_item (active_rows w.instances) in
      elim (List-cases (select (is_stale live) rows)) [
        | inl e ↦ (rows, ground arith, none_stale-IsLive live rows e)
        | inr (stale, more, e) ↦ (map (mark_stopped live) rows, ground arith, map-IsLive live rows)
      ]
