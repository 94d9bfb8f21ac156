-- ===== src/Instances/Lifecycle.antt =====
-- DELETE, start and stop of frontend/app/api/instances/[id]: when the table changes.
use mathlib.Core.Path.{subst}
use foxplay_game.Common.{
  ℕ, String, true, false, List, Option, none, some, ◌≡◌, refl, sym, arith, inl, inr, ◌⊎◌,
  Option-cases, find, template, [], ◌∷◌,
}
use foxplay_game.Json.{Json}
use foxplay_game.Models.{is_instance_id}
use foxplay_game.Server.{
  InstanceRow, World, Res, ok, thrown, query, Response, reply, fail, Fetched, M, next_fault,
  later_faults,
}
use foxplay_game.Server.Manager
use foxplay_game.Server.Manager.{FetchRequest}
use foxplay_game.Server.Laws.{IsStable, Keeps, Keeps-start, Keeps-stop, Keeps-remove}
use foxplay_game.Instances.Table.{set_state, soft_delete, has_id, is_active_id}
use foxplay_game.Instances.{
  delete_instance, start_instance, stop_instance, settle, with_row, act_on, to_spec,
}

module _ {S : Type 0} where
  abbrev after_query : World S → World S
  after_query w = record w { faults = later_faults w.faults }

  -- The manager's part leaves the tables alone.
  abbrev Touches : (InstanceRow → M S (Unit {0})) → Type 0
  Touches act =
      (r : InstanceRow) (rows : List InstanceRow) → Keeps (λ w. w.instances ≡ rows) (act r)

  -- What a request has done to the rows: all of it, with 200, after the row was found and the
  -- manager succeeded; or nothing, with another status.
  pub data Acted (row : List InstanceRow → Option InstanceRow) (act : InstanceRow → M S (Unit {0}))
      (change : List InstanceRow → List InstanceRow) (w w' : World S) (q : Response (Unit {0}))
      : Type 0 where
    done :
        (r : InstanceRow)
        → row w.instances ≡ some r
        → (act r (after_query w)).0 ≡ ok tt
        → w'.instances ≡ change w.instances
        → q ≡ reply 200 tt
        → Acted row act change w w' q
    undone :
        w'.instances ≡ w.instances
        → ((q.status ≡ 404) ⊎ (q.status ≡ 500) ⊎ (q.status ≡ 502))
        → Acted row act change w w' q

  module _ (row : List InstanceRow → Option InstanceRow) (act : InstanceRow → M S (Unit {0}))
      (touches : Touches act) (failing : String) (change : List InstanceRow → List InstanceRow)
      (crashed : String) where
    act_on-found :
        (w : World S) (r : InstanceRow)
        → next_fault w.faults ≡ none
        → row w.instances ≡ some r
        → (p : Res (Unit {0}) × World S) → act r (after_query w) ≡ p
        → p.1.instances ≡ w.instances
        → let (o, w') = act_on row act failing change crashed w in
          (q : Response (Unit {0})) × (o ≡ ok q) × Acted row act change w w' q
    unfolding act_on with_row settle query
    act_on-found w r calm found (ok u, v) ran kept = elim (Option-cases (next_fault v.faults)) [
      | inl e ↦ (reply 200 tt, ground arith, done r found (ground arith) (ground arith) refl)
      | inr (f, e) ↦ (fail 500 crashed, ground arith, undone (ground arith) (inr (inl refl)))
    ]
    act_on-found w r calm found (thrown e, v) ran kept = (
      fail 502 (template (failing ∷ ": " ∷ e.message ∷ [])),
      ground arith,
      undone (ground arith) (inr (inr refl)),
    )

    -- The request always gets a response.
    pub act_on_lem :
        (w : World S)
        → let (o, w') = act_on row act failing change crashed w in
          (q : Response (Unit {0})) × (o ≡ ok q) × Acted row act change w w' q
    unfolding act_on with_row settle query
    act_on_lem w = elim (Option-cases (next_fault w.faults)) [
      | inr (f, e) ↦ (fail 500 crashed, ground arith, undone (ground arith) (inr (inl refl)))
      | inl calm ↦ elim (Option-cases (row w.instances)) [
        | inl missing ↦ (fail 404 "not found", ground arith, undone (ground arith) (inl refl))
        | inr (r, found) ↦
            act_on-found w r calm found (act r (after_query w)) refl
              (touches r w.instances (after_query w) refl)
      ]
    ]

  -- what every change keeps, a request keeps
  pub Acted-rows :
      {row : List InstanceRow → Option InstanceRow} {act : InstanceRow → M S (Unit {0})}
      {change : List InstanceRow → List InstanceRow} {w w' : World S} {q : Response (Unit {0})}
      (P : List InstanceRow → Type 0)
      → ((rows : List InstanceRow) → P rows → P (change rows))
      → Acted row act change w w' q
      → P w.instances
      → P w'.instances
  Acted-rows {w = w} P keep (done r found ran left same) v = subst P (sym left) (keep w.instances v)
  Acted-rows P keep (undone left status) v = subst P (sym left) v

module _ {S : Type 0} (fetch : FetchRequest → S → Fetched × S) (parse : String → Option Json)
    (zod : String → Option Json → String) (now : ℕ) (fresh : String) (id : String)
    (w : World S) where
  rows-IsStable : (rows : List InstanceRow) → IsStable {S = S} (λ v. v.instances ≡ rows)
  rows-IsStable rows = record { faults = λ v fs h. h; remote = λ v s h. h }

  -- `POST …/start` with a well-formed id always gets a response. Either an active row has the id,
  -- the manager has started it, every row with the id is "running" and the response is 200; or no
  -- row has changed and the response is 404, 500 or 502.
  pub start_instance-Acted :
      is_instance_id id ≡ true
      → let (o, w') = start_instance fetch parse zod now fresh id w in
        (q : Response (Unit {0})) × (o ≡ ok q)
        × Acted
            (find (is_active_id id))
            (λ r. Manager.start fetch parse (to_spec r))
            (set_state id "running")
            w
            w'
            q
  unfolding start_instance
  start_instance-Acted h = rw h (
      act_on_lem _ _ (λ r rows. Keeps-start fetch parse _ (rows-IsStable rows) (to_spec r)) _ _ _ w)

  -- `POST …/stop` with a well-formed id always gets a response. Either an active row has the id,
  -- the manager has stopped it, every row with the id is "stopped" and the response is 200; or no
  -- row has changed and the response is 404, 500 or 502.
  pub stop_instance-Acted :
      is_instance_id id ≡ true
      → let (o, w') = stop_instance fetch parse zod now fresh id w in
        (q : Response (Unit {0})) × (o ≡ ok q)
        × Acted
            (find (is_active_id id))
            (λ _. Manager.stop fetch parse id)
            (set_state id "stopped")
            w
            w'
            q
  unfolding stop_instance
  stop_instance-Acted h =
      rw h (act_on_lem _ _ (λ r rows. Keeps-stop fetch parse _ (rows-IsStable rows) id) _ _ _ w)

  -- `DELETE` with a well-formed id always gets a response. Either a row has the id, deleted or not,
  -- the manager has removed the machine, the active row with the id is marked deleted and stopped
  -- and the response is 200; or no row has changed and the response is 404, 500 or 502: a row is
  -- never marked deleted while its machine is still there.
  pub delete_instance-Acted :
      is_instance_id id ≡ true
      → let (o, w') = delete_instance fetch parse zod now fresh id w in
        (q : Response (Unit {0})) × (o ≡ ok q)
        × Acted
            (find (has_id id))
            (λ r. Manager.remove fetch parse (to_spec r))
            (soft_delete id now)
            w
            w'
            q
  unfolding delete_instance
  delete_instance-Acted h = rw h (
      act_on_lem _ _ (λ r rows. Keeps-remove fetch parse _ (rows-IsStable rows) (to_spec r)) _ _ _
        w)

  -- An id of another form is answered with 404 by the three routes, and nothing happens.
  pub malformed_id :
      is_instance_id id ≡ false
      → (start_instance fetch parse zod now fresh id w ≡ (ok (fail 404 "not found"), w))
        × (stop_instance fetch parse zod now fresh id w ≡ (ok (fail 404 "not found"), w))
        × (delete_instance fetch parse zod now fresh id w ≡ (ok (fail 404 "not found"), w))
  unfolding start_instance stop_instance delete_instance
  malformed_id h = (rw h, rw h, rw h)
