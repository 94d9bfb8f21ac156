-- ===== src/Instances/Create/Steps.antt =====
-- What the calls of POST frontend/app/api/instances leave of the row that was inserted.
use foxplay_game.Common.{
  ℕ, String, false, List, [], ◌∷◌, Option, none, some, ◌≡◌, refl, ◌⊎◌, inl, inr, arith, All,
  Option-cases, eq_refl, eq_iff, sym, ◌∙◌, template,
}
use mathlib.Core.Path.{subst}
use foxplay_game.Json.{Json}
use foxplay_game.Server.{
  InstanceRow, World, Thrown, Res, ok, thrown, query, next_fault, Response, reply, fail, Fetched,
}
use foxplay_game.Server.Manager
use foxplay_game.Server.Manager.{FetchRequest}
use foxplay_game.Server.Laws.{IsStable, Keeps-create, >>=-ok}
use foxplay_game.Instances.Table.{conflicts, update, set_state, with_state}
use foxplay_game.Instances.{finish, provision, to_spec, attempt}

-- The response that goes with the state that the new row is left in.
abbrev pub Fits : String → String → Res (Response String) → Type 0
Fits fresh s r =
    ((s ≡ "running") × (r ≡ ok (reply 201 fresh)))
    ⊎ ((s ≡ "error") × ((m : String) × (r ≡ ok (fail 502 m))))
    ⊎ ((s ≡ "creating") × ((e : Thrown) × (r ≡ thrown e)))

-- Rows that cannot stand beside the new one have other ids, so an update by its id is its alone.
update_others :
    (row : InstanceRow) (s : String) (rows : List InstanceRow)
    → All (λ q. conflicts row q ≡ false) rows
    → set_state row.id s rows ≡ rows
unfolding set_state update conflicts
update_others row s [] h = refl
update_others row s (q ∷ rows) h =
    ground (arith, eq_iff q.id row.id, eq_iff row.id q.id, update_others row s rows h.1)

set_state_head :
    (row : InstanceRow) (s : String) (rows : List InstanceRow)
    → All (λ q. conflicts row q ≡ false) rows
    → set_state row.id s (row ∷ rows) ≡ with_state s row ∷ rows
unfolding set_state update
set_state_head row s rows h = ground (arith, eq_refl row.id, update_others row s rows h)

module _ {S : Type 0} (fetch : FetchRequest → S → Fetched × S) (parse : String → Option Json)
    (zod : String → Option Json → String) (now : ℕ) (fresh : String) where
  -- Where the update fails, the row is left as it was inserted.
  finish_lem :
      (row : InstanceRow) (o : Option Thrown) (rows : List InstanceRow) (w : World S)
      → row.state ≡ "creating"
      → All (λ q. conflicts row q ≡ false) rows
      → w.instances ≡ row ∷ rows
      → let (r, w') = finish fetch parse zod now fresh row o w in
        (s : String) × (w'.instances ≡ with_state s row ∷ rows) × Fits row.id s r
  unfolding finish query
  finish_lem row none rows w st apart at = elim (Option-cases (next_fault w.faults)) [
    | inl e ↦ (
      "running",
      ground (arith, set_state_head row "running" rows apart),
      inl (refl, ground arith),
    )
    | inr (f, e) ↦ ("creating", ground arith, inr (inr (refl, (f, ground arith))))
  ]
  finish_lem row (some failed) rows w st apart at = elim (Option-cases (next_fault w.faults)) [
    | inl e ↦ (
      "error",
      ground (arith, set_state_head row "error" rows apart),
      inr (inl (refl, (template ("create failed" ∷ ": " ∷ failed.message ∷ []), ground arith))),
    )
    | inr (f, e) ↦ ("creating", ground arith, inr (inr (refl, (f, ground arith))))
  ]

  -- Whatever the manager answers, the attempt returns and leaves the table alone.
  attempt-create :
      (row : InstanceRow) (w : World S)
      → (o : Option Thrown) × (w' : World S) × (attempt (Manager.create fetch parse (to_spec row)) w
          ≡ (ok o, w'))
        × (w'.instances ≡ w.instances)
  attempt-create row w = answered (Manager.create fetch parse (to_spec row) w) refl (
      Keeps-create fetch parse (λ v. v.instances ≡ w.instances) instances-IsStable (to_spec row) w
        refl)
    where
      instances-IsStable : IsStable {S = S} (λ v. v.instances ≡ w.instances)
      instances-IsStable = record { faults = λ v fs h. h; remote = λ v s h. h }

      answered :
          (p : Res (Unit {0}) × World S)
          → Manager.create fetch parse (to_spec row) w ≡ p
          → p.1.instances ≡ w.instances
          → (o : Option Thrown) × (w' : World S) × (attempt
                (Manager.create fetch parse (to_spec row))
                w
              ≡ (ok o, w'))
            × (w'.instances ≡ w.instances)
      answered (ok _, w') e h = (none, w', ground arith, h)
      answered (thrown t, w') e h = (some t, w', ground arith, h)

  pub provision_lem :
      (row : InstanceRow) (rows : List InstanceRow) (w : World S)
      → row.state ≡ "creating"
      → All (λ q. conflicts row q ≡ false) rows
      → w.instances ≡ row ∷ rows
      → let (r, w') = provision fetch parse zod now fresh row w in
        (s : String) × (w'.instances ≡ with_state s row ∷ rows) × Fits row.id s r
  unfolding provision
  provision_lem row rows w st apart at =
      let (o, w', run, same) = attempt-create row w in
      subst
        (λ (p : Res (Response String) × World S).
          (s : String) × (p.1.instances ≡ with_state s row ∷ rows) × Fits row.id s p.0)
        (sym (
          >>=-ok (attempt (Manager.create fetch parse (to_spec row)))
            (finish fetch parse zod now fresh row) run))
        (finish_lem row o rows w' st apart (same ∙ at))

pub Res-cases : {A : Type 0} (r : Res A) → ((a : A) × (r ≡ ok a)) ⊎ ((e : Thrown) × (r ≡ thrown e))
Res-cases (ok a) = inl (a, refl)
Res-cases (thrown e) = inr (e, refl)
