-- ===== src/Registry/Functions/Deletion.antt =====
-- What registering and deleting a function do to the registry.
use foxplay_game.Common.{
  ℕ, String, true, ◌≡◌, ◌⊎◌, inl, inr, refl, [], ◌∷◌, Option, arith, template, Bool-cases,
  Option-cases,
}
use foxplay_game.Json.{Json}
use foxplay_game.Models.{Parsed, success, failure, parse_name_body, is_function_id}
use foxplay_game.Server.{
  World, Res, ok, Thrown, M, pure, query, next_fault, later_faults, Response, fail, reply,
  is_duplicate, is_ok_status, Fetched,
}
use foxplay_game.Server.Laws.{Res-cases, Fetched-cases}
use foxplay_game.Server.Manager.{FetchRequest, send}
use foxplay_game.Registry.{insert, retire_rows}
use foxplay_game.Registry.Functions.{
  functions, new_function, insert_function, register_failed, register_named, register_function,
  after_store, retire_function, delete_function, store_request,
}

-- The other tables are as they were.
abbrev pub OthersSame : {S : Type 0} → World S → World S → Type 0
OthersSame w w' = (w'.ssh_keys ≡ w.ssh_keys) × (w'.instances ≡ w.instances)

-- Only the registry changes: a new row in front with 201 and its id and name, or nothing with an error.
pub data Registered {S : Type 0} (fresh : String) (now : ℕ) (w w' : World S)
    (q : Response (String × String)) : Type 0 where
  added :
      (name : String)
      → insert functions (new_function fresh now name) w.functions ≡ ok w'.functions
      → q ≡ reply 201 (fresh, name)
      → OthersSame w w'
      → Registered fresh now w w' q
  refused :
      w'.functions ≡ w.functions
      → ((q.status ≡ 400) ⊎ (q.status ≡ 409) ⊎ (q.status ≡ 500))
      → OthersSame w w'
      → Registered fresh now w w' q

module _ {S : Type 0} where
  register_failed-refused :
      (name : String) (e : Thrown) (v : World S)
      → (q : Response (String × String)) × (register_failed name e v ≡ (ok q, v))
        × ((q.status ≡ 400) ⊎ (q.status ≡ 409) ⊎ (q.status ≡ 500))
  register_failed-refused name e v = elim (Bool-cases (is_duplicate e)) [
    | inl d ↦ (
      fail 409 (template ("a function named '" ∷ name ∷ "' already exists" ∷ [])),
      rw d refl,
      inr (inl refl),
    )
    | inr d ↦ (fail 500 "insert failed", rw d refl, inr (inr refl))
  ]

  register_named-Registered :
      (fresh : String) (now : ℕ) (name : String) (w : World S)
      → let (r, w') = register_named fresh now name w in
        (q : Response (String × String)) × (r ≡ ok q) × Registered fresh now w w' q
  unfolding register_named insert_function query
  register_named-Registered fresh now name w = elim (Option-cases (next_fault w.faults)) [
    | inl calm ↦ elim (Res-cases (insert functions (new_function fresh now name) w.functions)) [
      | inl (rows, e) ↦ (
        reply 201 (fresh, name),
        ground arith,
        added name (ground arith) refl (ground arith, ground arith),
      )
      | inr (err, e) ↦
          let (q, ran, status) =
            register_failed-refused name err (record w { faults = later_faults w.faults }) in
          (q, ground arith, refused (ground arith) status (ground arith, ground arith))
    ]
    | inr (f, e) ↦
        let (q, ran, status) =
          register_failed-refused name f (record w { faults = later_faults w.faults }) in
        (q, ground arith, refused (ground arith) status (ground arith, ground arith))
  ]

  -- A request to register a function always gets a response, and leaves the other tables alone. Either the registry has one row more, in
  -- front, with the id and the parsed name that the response 201 gives; or it is as it was, and the response
  -- is 400, 409 or 500.
  pub register_function-Registered :
      (zod : String → Option Json → String) (fresh : String) (now : ℕ) (body : Json) (w : World S)
      → let (r, w') = register_function zod fresh now body w in
        (q : Response (String × String)) × (r ≡ ok q) × Registered fresh now w w' q
  unfolding register_function
  register_function-Registered zod fresh now body w = parsed (parse_name_body zod body)
    where
      parsed :
          (p : Parsed String)
          → let (r, w') =
              (elim p as (λ _. M S (Response (String × String))) [
                | failure message ↦ pure (fail 400 message)
                | success name ↦ register_named fresh now name
              ])
                w in
            (q : Response (String × String)) × (r ≡ ok q) × Registered fresh now w w' q
      parsed (failure message) = (fail 400 message, refl, refused refl (inl refl) (refl, refl))
      parsed (success name) = register_named-Registered fresh now name w

-- What a deletion does, by the answer of the store.
pub data Deleted {S : Type 0} (answer : Res (ℕ × String)) (id : String) (now : ℕ) (w w' : World S)
    (q : Response (Unit {0})) : Type 0 where
  gone :
      (status : ℕ) (text : String)
      → answer ≡ ok (status, text)
      → is_ok_status status ≡ true
      → w'.functions ≡ retire_rows functions id now w.functions
      → q ≡ reply 200 tt
      → OthersSame w w'
      → Deleted answer id now w w' q
  kept :
      w'.functions ≡ w.functions
      → ((q.status ≡ 500) ⊎ (q.status ≡ 502))
      → OthersSame w w'
      → Deleted answer id now w w' q

module _ {S : Type 0} (fetch : FetchRequest → S → Fetched × S) (parse : String → Option Json)
    (encode : String → String) where
  -- `DELETE` with a well-formed id always gets a response, and leaves the other tables alone. Either the artifact store has answered with
  -- success, the live row with the id is marked deleted and the response is 200; or no row has changed
  -- and the response is 500 or 502: a function is never marked deleted while its code is still deployed.
  pub delete_function-Deleted :
      (id : String) (now : ℕ) (w : World S)
      → is_function_id id ≡ true
      → let (r, w') = delete_function fetch parse encode id now w in
        (q : Response (Unit {0})) × (r ≡ ok q)
        × Deleted (send fetch parse (store_request fetch parse encode id) w).0 id now w w' q
  unfolding delete_function send after_store retire_function query
  delete_function-Deleted id now w h =
      elim (Fetched-cases (fetch (store_request fetch parse encode id) w.remote).0) [
        | inl (e, f) ↦ (
          fail 500 "delete failed",
          ground arith,
          kept (ground arith) (inl refl) (ground arith, ground arith),
        )
        | inr (status, text, f) ↦ elim (Bool-cases (is_ok_status status)) [
          | inr bad ↦ (
            fail 502 (template ("server code delete failed: " ∷ text ∷ [])),
            ground arith,
            kept (ground arith) (inr refl) (ground arith, ground arith),
          )
          | inl good ↦ elim (Option-cases (next_fault w.faults)) [
            | inl calm ↦ (
              reply 200 tt,
              ground arith,
              gone status text (ground arith) good (ground arith) refl (ground arith, ground arith),
            )
            | inr (e, g) ↦ (
              fail 500 "delete failed",
              ground arith,
              kept (ground arith) (inl refl) (ground arith, ground arith),
            )
          ]
        ]
      ]
