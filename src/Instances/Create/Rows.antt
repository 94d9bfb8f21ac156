-- ===== src/Instances/Create/Rows.antt =====
-- The statements of POST frontend/app/api/instances: the row it writes, in each of its steps.
use foxplay_game.Common.{
  ℕ, ◌≤◌, String, false, List, ◌∷◌, Option, ◌≡◌, refl, ◌⊎◌, inl, inr, arith, ltb, All, Bool-cases,
  Option-cases, sym,
}
use mathlib.Core.Path.{subst}
use foxplay_game.Json.{Json}
use foxplay_game.Models.{InstanceCreate}
use foxplay_game.Server.{
  InstanceRow, World, Thrown, Res, ok, thrown, query, next_fault, later_faults, Response, fail,
  Fetched,
}
use foxplay_game.Server.Manager.{FetchRequest}
use foxplay_game.Instances.Table.{conflicts, insert_row, with_state, allocate}
use foxplay_game.Instances.Invariant.{insert_row-ok}
use foxplay_game.Instances.{new_row, provision, create_at, create_instance}
use foxplay_game.Instances.Create.Steps.{Fits, provision_lem, Res-cases}

-- A request that is turned away before anything is written.
abbrev pub Early : Res (Response String) → Type 0
Early r = (r ≡ ok (fail 507 "address space full")) ⊎ ((e : Thrown) × (r ≡ thrown e))

-- One row is put in front of the old ones, on the given slot, and left in the state `s`.
abbrev pub Placed :
    String
    → ℕ
    → InstanceCreate
    → ℕ × ℕ
    → List InstanceRow
    → List InstanceRow
    → Res (Response String)
    → Type 0
Placed fresh now input slot rows rows' r =
    (s : String) × (slot.1 ≤ 254)
    × All (λ q. conflicts (new_row fresh now input slot) q ≡ false) rows
    × (rows' ≡ with_state s (new_row fresh now input slot) ∷ rows)
    × Fits fresh s r

-- The same on the slot that is allocated for the old rows.
abbrev pub Recorded :
    String
    → ℕ
    → InstanceCreate
    → List InstanceRow
    → List InstanceRow
    → Res (Response String)
    → Type 0
Recorded fresh now input rows rows' r =
    (slot : ℕ × ℕ) × (allocate rows ≡ ok slot) × Placed fresh now input slot rows rows' r

module _ {S : Type 0} (fetch : FetchRequest → S → Fetched × S) (parse : String → Option Json)
    (zod : String → Option Json → String) (now : ℕ) (fresh : String) where
  abbrev asked : World S → World S
  asked w = record w { faults = later_faults w.faults }

  abbrev inserted : InstanceRow → World S → World S
  inserted row w = record w { faults = later_faults w.faults; instances = row ∷ w.instances }

  -- What the rest of a request does, once its slot is given, whatever rows it then finds.
  pub create_at_lem :
      (input : InstanceCreate) (slot : ℕ × ℕ) (w : World S)
      → let (r, w') = create_at fetch parse zod now fresh input slot w in
        ((w'.instances ≡ w.instances) × Early r)
        ⊎ Placed fresh now input slot w.instances w'.instances r
  unfolding create_at query
  create_at_lem input slot w = elim (Bool-cases (ltb 254 slot.1)) [
    | inl full ↦ inl (ground arith, inl (ground arith))
    | inr room ↦ elim (Option-cases (next_fault w.faults)) [
      | inr (f, e) ↦ inl (ground arith, inr (f, ground arith))
      | inl calm ↦ elim (Res-cases (insert_row (new_row fresh now input slot) w.instances)) [
        | inr (f, e) ↦ inl (ground arith, inr (f, ground arith))
        | inl (rows, e) ↦
            let row = new_row fresh now input slot in
            let (front, apart) = insert_row-ok row w.instances rows e in
            let (s, left, fits) =
              provision_lem fetch parse zod now fresh row w.instances (inserted row w) refl apart
                refl in
            let run : create_at fetch parse zod now fresh input slot w
                ≡ provision fetch parse zod now fresh row (inserted row w) =
              ground arith in
            inr (
              subst
                (λ (p : Res (Response String) × World S).
                  Placed fresh now input slot w.instances p.1.instances p.0)
                (sym run) (s, ground arith, apart, left, fits))
      ]
    ]
  ]

  pub create_lem :
      (input : InstanceCreate) (w : World S)
      → let (r, w') = create_instance fetch parse zod now fresh input w in
        ((w'.instances ≡ w.instances) × Early r)
        ⊎ Recorded fresh now input w.instances w'.instances r
  unfolding create_instance query
  create_lem input w = elim (Option-cases (next_fault w.faults)) [
    | inr (f, e) ↦ inl (ground arith, inr (f, ground arith))
    | inl calm ↦ elim (Res-cases (allocate w.instances)) [
      | inr (f, e) ↦ inl (ground arith, inr (f, ground arith))
      | inl (slot, e) ↦
          let run : create_instance fetch parse zod now fresh input w
              ≡ create_at fetch parse zod now fresh input slot (asked w) =
            ground arith in
          subst
            (λ (p : Res (Response String) × World S).
              ((p.1.instances ≡ w.instances) × Early p.0)
              ⊎ Recorded fresh now input w.instances p.1.instances p.0)
            (sym run)
            (elim (create_at_lem input slot (asked w)) [
              | inl early ↦ inl early
              | inr placed ↦ inr (slot, e, placed)
            ])
    ]
  ]
