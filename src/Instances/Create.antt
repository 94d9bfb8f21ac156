-- ===== src/Instances/Create.antt =====
-- POST frontend/app/api/instances: what a request can leave in the table, whatever the database and
-- the instance-manager answer.
pub mod Rows
mod Steps
use foxplay_game.Common.{
  ℕ, ◌+◌, ◌≤◌, String, false, List, [], ◌∷◌, Option, none, ◌≡◌, refl, ◌⊎◌, inl, inr, arith, length,
  All, Bool-cases, sym, ◌∙◌, template,
}
use mathlib.Core.Path.{subst}
use foxplay_game.Json.{Json}
use foxplay_game.Models.{InstanceCreate, Parsed, success, failure, parse_instance_create}
use foxplay_game.Server.{
  InstanceRow, World, Thrown, Res, ok, thrown, query, next_fault, Response, reply, fail, Fetched, M,
  pure, try_catch, is_duplicate,
}
use foxplay_game.Server.Manager
use foxplay_game.Server.Manager.{FetchRequest}
use foxplay_game.Instances.Table.{conflicts, with_state, allocate}
use foxplay_game.Instances.Invariant.{IsValid, allocate-IsValid}
use foxplay_game.Instances.{new_row, create_instance, create_failed, post_instance}
use foxplay_game.Instances.Create.Rows.{Early, Recorded, create_lem}

-- What a request to create an instance has done to the rows when it is answered with `r`.
pub data Posted (fresh : String) (now : ℕ) (rows rows' : List InstanceRow) (r : Response String)
    : Type 0 where
  refused :
      rows' ≡ rows
      → ((r.status ≡ 400) ⊎ (r.status ≡ 409) ⊎ (r.status ≡ 500) ⊎ (r.status ≡ 507))
      → Posted fresh now rows rows' r
  recorded :
      (input : InstanceCreate) (slot : ℕ × ℕ) (s : String)
      → allocate rows ≡ ok slot
      → slot.1 ≤ 254
      → All (λ q. conflicts (new_row fresh now input slot) q ≡ false) rows
      → rows' ≡ with_state s (new_row fresh now input slot) ∷ rows
      → ((s ≡ "running") × (r ≡ reply 201 fresh))
        ⊎ ((s ≡ "error") × (r.status ≡ 502))
        ⊎ ((s ≡ "creating") × ((r.status ≡ 409) ⊎ (r.status ≡ 500)))
      → Posted fresh now rows rows' r

pub Posted-IsValid :
    {fresh : String} {now : ℕ} {rows rows' : List InstanceRow} {r : Response String}
    → Posted fresh now rows rows' r
    → IsValid rows
    → IsValid rows'
Posted-IsValid (refused same _) v = subst IsValid (sym same) v
Posted-IsValid {fresh} {now} {rows} (recorded input slot s at room apart left _) v =
    let same : ok slot ≡ ok (length rows + 40000, length rows + 2) =
      sym at ∙ allocate-IsValid rows v in
    let front : IsValid (with_state s (new_row fresh now input slot) ∷ rows) =
      (ground arith, restated slot s rows apart, v) in
    subst IsValid (sym left) front
  where
    restated :
        (slot : ℕ × ℕ) (s : String) (qs : List InstanceRow)
        → All (λ q. conflicts (new_row fresh now input slot) q ≡ false) qs
        → All (λ q. conflicts (with_state s (new_row fresh now input slot)) q ≡ false) qs
    restated slot s [] h = tt
    restated slot s (q ∷ qs) h = (unfold conflicts in h.0, restated slot s qs h.1)

module _ {S : Type 0} (fetch : FetchRequest → S → Fetched × S) (parse : String → Option Json)
    (zod : String → Option Json → String) (now : ℕ) (fresh : String) where
  create_failed_lem :
      (input : InstanceCreate) (e : Thrown) (w : World S)
      → (q : Response String) × (create_failed fetch parse zod now fresh input e w ≡ (ok q, w))
        × ((q.status ≡ 409) ⊎ (q.status ≡ 500))
  unfolding create_failed
  create_failed_lem input e w = elim (Bool-cases (is_duplicate e)) [
    | inl d ↦ (
      fail 409 (template ("an instance named '" ∷ input.name ∷ "' already exists" ∷ [])),
      ground arith,
      inl refl,
    )
    | inr d ↦ (fail 500 "create failed", ground arith, inr refl)
  ]

  answer_lem :
      (input : InstanceCreate) (w : World S)
      → let (r, w') =
          try_catch
            (create_instance fetch parse zod now fresh input)
            (create_failed fetch parse zod now fresh input)
            w in
        (q : Response String) × (r ≡ ok q) × Posted fresh now w.instances w'.instances q
  answer_lem input w =
      settled (create_instance fetch parse zod now fresh input w)
        (create_lem fetch parse zod now fresh input w)
    where
      settled :
          (p : Res (Response String) × World S)
          → ((p.1.instances ≡ w.instances) × Early p.0)
            ⊎ Recorded fresh now input w.instances p.1.instances p.0
          → let (r, w') = elim p.0 as (λ _. Res (Response String) × World S) [
            | ok a ↦ (ok a, p.1)
            | thrown e ↦ create_failed fetch parse zod now fresh input e p.1
          ] in
            (q : Response String) × (r ≡ ok q) × Posted fresh now w.instances w'.instances q
      settled (ok q, w') (inl (same, early)) = (q, refl, refused same (ground arith))
      settled (ok q, w') (inr (slot, at, (s, room, apart, left, fits))) =
          (q, refl, recorded input slot s at room apart left (ground arith))
      settled (thrown e, w') (inl (same, early)) =
          let (q, run, status) = create_failed_lem input e w' in
          subst
            (λ (p : Res (Response String) × World S).
              (q : Response String) × (p.0 ≡ ok q) × Posted fresh now w.instances p.1.instances q)
            (sym run) (q, refl, refused same (ground arith))
      settled (thrown e, w') (inr (slot, at, (s, room, apart, left, fits))) =
          let (q, run, status) = create_failed_lem input e w' in
          subst
            (λ (p : Res (Response String) × World S).
              (q : Response String) × (p.0 ≡ ok q) × Posted fresh now w.instances p.1.instances q)
            (sym run) (q, refl, recorded input slot s at room apart left (ground arith))

  -- A request to create an instance always gets a response. Whatever the body is and however the
  -- database and the instance-manager behave, the other rows are as they were, and the table has at
  -- most one more row: none with 400, 409, 500 or 507; otherwise the new row on the allocated slot,
  -- in a range of at most 254 and in conflict with no other row, as "running" exactly with the
  -- response 201 and its id, as "error" with 502, and as "creating" only with 409 or 500.
  pub post_instance-Posted :
      (body : Json) (w : World S)
      → let (r, w') = post_instance fetch parse zod now fresh body w in
        (q : Response String) × (r ≡ ok q) × Posted fresh now w.instances w'.instances q
  unfolding post_instance
  post_instance-Posted body w = parsed (parse_instance_create zod body)
    where
      parsed :
          (p : Parsed InstanceCreate)
          → let (r, w') =
              (elim p as (λ _. M S (Response String)) [
                | failure message ↦ pure (fail 400 message)
                | success input ↦
                    try_catch
                      (create_instance fetch parse zod now fresh input)
                      (create_failed fetch parse zod now fresh input)
              ])
                w in
            (q : Response String) × (r ≡ ok q) × Posted fresh now w.instances w'.instances q
      parsed (failure message) = (fail 400 message, refl, refused refl (inl refl))
      parsed (success input) = answer_lem input w

  -- A request to create an instance keeps the invariant of the table, whatever its body is and
  -- however the database and the instance-manager behave.
  pub post_instance-IsValid :
      (body : Json) (w : World S)
      → IsValid w.instances
      → IsValid (post_instance fetch parse zod now fresh body w).1.instances
  post_instance-IsValid body w v =
      let (q, _, posted) = post_instance-Posted body w in Posted-IsValid posted v

  -- In a table that satisfies the invariant and holds 253 rows or more, deleted ones included, a
  -- request that parses and whose first statement is executed is refused with 507 and changes no
  -- row.
  pub post_instance-full :
      (body : Json) (input : InstanceCreate) (w : World S)
      → IsValid w.instances
      → 253 ≤ length w.instances
      → parse_instance_create zod body ≡ success input
      → next_fault w.faults ≡ none
      → let (r, w') = post_instance fetch parse zod now fresh body w in
        (r ≡ ok (fail 507 "address space full")) × (w'.instances ≡ w.instances)
  unfolding post_instance create_instance query
  post_instance-full body input w v full e calm =
      let at = allocate-IsValid w.instances v in (ground arith, ground arith)
