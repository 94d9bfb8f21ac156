-- ===== src/Registry/Keys/Saved.antt =====
-- What saving, listing and deleting a key do to the table of keys.
use foxplay_game.Common.{
  ℕ, String, ◌≡◌, ◌≢◌, ◌⊎◌, inl, inr, refl, List, [], ◌∷◌, map, Option, none, arith, template, All,
  Bool-cases, Option-cases, IsSortedDesc, All-sort_desc, sort_desc-IsSortedDesc,
}
use foxplay_game.Json.{Json}
use foxplay_game.Models.{
  Parsed, success, failure, SshKeyCreate, parse_ssh_key_create, is_ssh_key_id,
}
use foxplay_game.Server.{
  SshKeyRow, World, ok, Thrown, M, pure, query, next_fault, later_faults, Response, fail, reply,
  is_duplicate,
}
use foxplay_game.Registry.{insert, retire_rows, live_rows}
use foxplay_game.Registry.Laws.{retire_rows-gone}
use foxplay_game.Server.Laws.{Res-cases}
use foxplay_game.Registry.Keys.{
  ssh_keys, trim, KeyItem, key_item, NewKey, returned_key, new_key, newest_first, list_keys,
  insert_key, create_key_failed, save_key, create_key, retire_key, delete_key,
}

-- The other tables are as they were.
abbrev pub OthersSame : {S : Type 0} → World S → World S → Type 0
OthersSame w w' = (w'.functions ≡ w.functions) × (w'.instances ≡ w.instances)

-- Only the table of keys changes: a new row in front with 201, or nothing with an error.
pub data Saved {S : Type 0} (parsed : Parsed SshKeyCreate) (fresh : String) (now : ℕ)
    (w w' : World S) (q : Response NewKey) : Type 0 where
  added :
      (input : SshKeyCreate)
      → parsed ≡ success input
      → insert ssh_keys (new_key fresh now input) w.ssh_keys ≡ ok w'.ssh_keys
      → q ≡ reply 201 (record { id = fresh; name = input.name; public_key = trim input.public_key })
      → OthersSame w w'
      → Saved parsed fresh now w w' q
  refused :
      w'.ssh_keys ≡ w.ssh_keys
      → ((q.status ≡ 400) ⊎ (q.status ≡ 409) ⊎ (q.status ≡ 500))
      → OthersSame w w'
      → Saved parsed fresh now w w' q

items-gone :
    (id : String) (rows : List SshKeyRow)
    → All (λ r. r.id ≢ id) rows
    → All (λ k. k.id ≢ id) (map key_item rows)
items-gone id [] h = tt
items-gone id (r ∷ rows) h = (h.0, items-gone id rows h.1)

module _ {S : Type 0} where
  create_key_failed-refused :
      (name : String) (e : Thrown) (v : World S)
      → (q : Response NewKey) × (create_key_failed name e v ≡ (ok q, v))
        × ((q.status ≡ 400) ⊎ (q.status ≡ 409) ⊎ (q.status ≡ 500))
  create_key_failed-refused name e v = elim (Bool-cases (is_duplicate e)) [
    | inl d ↦ (
      fail 409 (template ("a key named '" ∷ name ∷ "' already exists" ∷ [])),
      rw d refl,
      inr (inl refl),
    )
    | inr d ↦ (fail 500 "insert failed", rw d refl, inr (inr refl))
  ]

  save_key-Saved :
      (fresh : String) (now : ℕ) (input : SshKeyCreate) (w : World S)
      → let (r, w') = save_key fresh now input w in
        (q : Response NewKey) × (r ≡ ok q) × Saved (success input) fresh now w w' q
  unfolding save_key insert_key query new_key
  save_key-Saved fresh now input w =
      let later = record w { faults = later_faults w.faults } in
      elim (Option-cases (next_fault w.faults)) [
        | inl calm ↦ elim (Res-cases (insert ssh_keys (new_key fresh now input) w.ssh_keys)) [
          | inl (rows, e) ↦ (
            reply 201 (returned_key (new_key fresh now input)),
            ground arith,
            added input refl (ground arith) refl (ground arith, ground arith),
          )
          | inr (err, e) ↦
              let (q, ran, status) = create_key_failed-refused input.name err later in
              (q, ground arith, refused (ground arith) status (ground arith, ground arith))
        ]
        | inr (f, e) ↦
            let (q, ran, status) = create_key_failed-refused input.name f later in
            (q, ground arith, refused (ground arith) status (ground arith, ground arith))
      ]

  -- A request to save a key always gets a response, and leaves the other tables alone. Either the table has one row more, in front, with the
  -- id, the name and the trimmed key that the response 201 gives; or it is as it was, and the response is
  -- 400, 409 or 500.
  pub create_key-Saved :
      (zod : String → Option Json → String) (fresh : String) (now : ℕ) (body : Json) (w : World S)
      → let (r, w') = create_key zod fresh now body w in
        (q : Response NewKey) × (r ≡ ok q) × Saved (parse_ssh_key_create zod body) fresh now w w' q
  unfolding create_key
  create_key-Saved zod fresh now body w = parsed (parse_ssh_key_create zod body)
    where
      parsed :
          (p : Parsed SshKeyCreate)
          → let (r, w') =
              (elim p as (λ _. M S (Response NewKey)) [
                | failure message ↦ pure (fail 400 message)
                | success input ↦ save_key fresh now input
              ])
                w in
            (q : Response NewKey) × (r ≡ ok q) × Saved p fresh now w w' q
      parsed (failure message) = (fail 400 message, refl, refused refl (inl refl) (refl, refl))
      parsed (success input) = save_key-Saved fresh now input w

  -- After a deletion that is answered with 200, and where the database executes the next statement, the list of
  -- keys is answered with 200, newest first, and holds no key with the deleted id.
  pub delete_key-list_keys :
      (id : String) (now : ℕ) (w : World S)
      → let (r, w') = delete_key id now w in
        r ≡ ok (reply 200 tt)
        → next_fault w'.faults ≡ none
        → (items : List KeyItem) × ((list_keys w').0 ≡ ok (reply 200 items))
          × IsSortedDesc (λ k. k.created_at) items
          × All (λ k. k.id ≢ id) items
  unfolding delete_key list_keys retire_key query
  delete_key-list_keys id now w deleted calm = elim (Bool-cases (is_ssh_key_id id)) [
    | inr e ↦ absurd (ground arith)
    | inl e ↦ elim (Option-cases (next_fault w.faults)) [
      | inr (f, g) ↦ absurd (ground arith)
      | inl g ↦
          let rows = map key_item (live_rows ssh_keys (retire_rows ssh_keys id now w.ssh_keys)) in
          (
            newest_first rows,
            ground arith,
            sort_desc-IsSortedDesc (λ k. k.created_at) rows,
            All-sort_desc (λ k. k.created_at) (λ k. k.id ≢ id) rows
                (items-gone id _ (retire_rows-gone ssh_keys w.ssh_keys id now)),
          )
    ]
  ]
