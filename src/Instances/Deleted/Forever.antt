-- ===== src/Instances/Deleted/Forever.antt =====
-- An instance that DELETE of frontend/app/api/instances/[id] has deleted, under the requests that
-- follow.
use mathlib.Core.Path.{subst}
use foxplay_game.Common.{
  ℕ, String, Bool, true, false, List, [], ◌∷◌, Option, none, some, ◌≡◌, ◌≢◌, refl, sym, ap, ◌∙◌,
  arith, inl, inr, Bool-cases, Option-cases, any, find,
}
use foxplay_game.Json.{Json}
use foxplay_game.Models.{is_instance_id}
use foxplay_game.Server.{
  InstanceRow, World, Res, ok, thrown, Fetched, Response, reply, fail, query, next_fault, M,
}
use foxplay_game.Server.Manager.{FetchRequest}
use foxplay_game.Instances.Table.{has_id, is_active_id, soft_delete}
use foxplay_game.Instances.Lifecycle.{
  Acted, done, undone, delete_instance-Acted, start_instance-Acted, stop_instance-Acted,
  malformed_id,
}
use foxplay_game.Instances.{
  get_instance, start_instance, stop_instance, delete_instance, list_instances,
}
use foxplay_game.Instances.History.{Call, handle_all, handle_all-IsKept}
use foxplay_game.Instances.Deleted.{IsGone, IsGone-IsKept, soft_delete-IsGone}
use foxplay_game.Instances.Deleted.Listed.{IsWithout, list_instances-IsWithout}

-- The response, if there is one, has another status than 200.
abbrev pub IsRefusal : {A : Type 0} → Res (Response A) → Type 0
IsRefusal (ok q) = q.status ≢ 200
IsRefusal (thrown e) = Unit

-- a response with another status
refusal :
    {A : Type 0} (r : Res (Response A)) (q : Response A) → r ≡ ok q → q.status ≢ 200 → IsRefusal r
refusal r q e h = subst IsRefusal (sym e) h

find-none :
    (p : InstanceRow → Bool) (rows : List InstanceRow) → any p rows ≡ false → find p rows ≡ none
find-none p [] h = refl
find-none p (r ∷ rows) h = ground (arith, find-none p rows)

find-any :
    (p : InstanceRow → Bool) (rows : List InstanceRow) (r : InstanceRow)
    → find p rows ≡ some r
    → any p rows ≡ true
find-any p [] r h = absurd (ground arith)
find-any p (q ∷ rows) r h = ground (arith, find-any p rows r)

module _ {S : Type 0} (fetch : FetchRequest → S → Fetched × S) (parse : String → Option Json)
    (zod : String → Option Json → String) (now : ℕ) (fresh id : String) where
  get_instance-refused :
      (w : World S)
      → IsGone id w.instances
      → IsRefusal (get_instance fetch parse zod now fresh id w).0
  unfolding get_instance query
  get_instance-refused w h =
      let missing = find-none (is_active_id id) w.instances h.1 in
      elim (Bool-cases (is_instance_id id)) [
        | inr e ↦ refusal _ (fail 404 "not found") (ground arith) (omega arith)
        | inl e ↦ elim (Option-cases (next_fault w.faults)) [
          | inl calm ↦ refusal _ (fail 404 "not found") (ground arith) (omega arith)
          | inr (f, fault) ↦ refusal _ (fail 500 "query failed") (ground arith) (omega arith)
        ]
      ]

  Acted-refused :
      {act : InstanceRow → M S (Unit {0})} {change : List InstanceRow → List InstanceRow}
      {w w' : World S} (q : Response (Unit {0}))
      → Acted (find (is_active_id id)) act change w w' q
      → any (is_active_id id) w.instances ≡ false
      → q.status ≢ 200
  Acted-refused {w = w} q (done r found ran left same) h =
      let missing = find-none (is_active_id id) w.instances h in absurd (ground arith)
  Acted-refused q (undone left status) h = ground arith

  start_instance-refused :
      (w : World S)
      → IsGone id w.instances
      → IsRefusal (start_instance fetch parse zod now fresh id w).0
  start_instance-refused w h = elim (Bool-cases (is_instance_id id)) [
    | inl e ↦
        let (q, same, acted) = start_instance-Acted fetch parse zod now fresh id w e in
        refusal _ q same (Acted-refused q acted h.1)
    | inr e ↦
        let answer = (malformed_id fetch parse zod now fresh id w e).0 in
        refusal _ (fail 404 "not found") (ap (λ p. p.0) answer) (omega arith)
  ]

  stop_instance-refused :
      (w : World S)
      → IsGone id w.instances
      → IsRefusal (stop_instance fetch parse zod now fresh id w).0
  stop_instance-refused w h = elim (Bool-cases (is_instance_id id)) [
    | inl e ↦
        let (q, same, acted) = stop_instance-Acted fetch parse zod now fresh id w e in
        refusal _ q same (Acted-refused q acted h.1)
    | inr e ↦
        let answer = (malformed_id fetch parse zod now fresh id w e).1 in
        refusal _ (fail 404 "not found") (ap (λ p. p.0) answer) (omega arith)
  ]

  delete_instance-IsGone :
      (w : World S)
      → (delete_instance fetch parse zod now fresh id w).0 ≡ ok (reply 200 tt)
      → IsGone id (delete_instance fetch parse zod now fresh id w).1.instances
  delete_instance-IsGone w e = elim (Bool-cases (is_instance_id id)) [
    | inl form ↦
        let (q, same, acted) = delete_instance-Acted fetch parse zod now fresh id w form in
        gone q (sym same ∙ e) acted
    | inr form ↦
        let answer = (malformed_id fetch parse zod now fresh id w form).2 in
        let other = ap (λ p. p.0) answer in absurd (ground arith)
  ]
    where
      gone :
          {act : InstanceRow → M S (Unit {0})} {w' : World S} (q : Response (Unit {0}))
          → Path (Res (Response (Unit {0}))) (ok q) (ok (reply 200 tt))
          → Acted (find (has_id id)) act (soft_delete id now) w w' q
          → IsGone id w'.instances
      gone q same (done r found ran left _) =
          subst (IsGone id) (sym left)
            (soft_delete-IsGone id now w.instances (find-any (has_id id) w.instances r found))
      gone q same (undone left status) = absurd (ground arith)

  -- Once DELETE of an id has been answered with 200, then after any further requests, whatever they
  -- are and whatever the database and the instance-manager do, GET, start and stop of the id are
  -- answered with another status than 200, if at all, and a listing shows no item with the id.
  pub deleted_forever :
      (w : World S) (calls : List Call)
      → (delete_instance fetch parse zod now fresh id w).0 ≡ ok (reply 200 tt)
      → let v =
          handle_all fetch parse zod calls (delete_instance fetch parse zod now fresh id w).1 in
        IsRefusal (get_instance fetch parse zod now fresh id v).0
        × IsRefusal (start_instance fetch parse zod now fresh id v).0
        × IsRefusal (stop_instance fetch parse zod now fresh id v).0
        × IsWithout id (list_instances fetch parse zod now fresh v).0
  deleted_forever w calls e =
      let v = handle_all fetch parse zod calls (delete_instance fetch parse zod now fresh id w).1 in
      let gone =
        handle_all-IsKept fetch parse zod (IsGone id) (IsGone-IsKept id) calls
          (delete_instance fetch parse zod now fresh id w).1 (delete_instance-IsGone w e) in
      (
        get_instance-refused v gone,
        start_instance-refused v gone,
        stop_instance-refused v gone,
        list_instances-IsWithout fetch parse zod now fresh id v gone,
      )
