-- ===== src/Client/Upload/Routed.antt =====
-- Registering and deleting a function, by the routes of frontend/app/api/functions, where the database
-- executes its statements.
use foxplay_game.Common.{
  ℕ, String, true, false, ◌&&◌, ◌≡◌, refl, inl, inr, arith, List, [], ◌∷◌, Option, str_eq, template,
  All, any, Bool-cases, eq_refl,
}
use foxplay_game.Json.{Json, str, obj, field, end}
use foxplay_game.Models.{Parsed, success, failure, parse_name_body, is_function_id}
use foxplay_game.Server.{
  World, FunctionRow, ok, Response, reply, fail, Fetched, answered, is_ok_status, query, M, pure,
}
use foxplay_game.Server.Manager.{FetchRequest, send}
use foxplay_game.Registry.{clash, is_live_id, insert, retire_rows}
use foxplay_game.Registry.Functions.{
  functions, new_function, register_function, register_named, insert_function, delete_function,
  store_request, after_store, retire_function,
}

-- No live row has the name, and the database executes what it is asked.
abbrev pub IsNameFree : {T : Type 0} → String → World T → Type 0
IsNameFree name w =
    (w.faults ≡ []) × All (λ r. (functions.is_live r && str_eq r.name name) ≡ false) w.functions

abbrev pub named_json : String × String → Json
named_json row = obj (field "id" (str row.0) (field "name" (str row.1) end))

-- What a registration does where the database executes its statement.
pub data Calm {T : Type 0} (fresh : String) (now : ℕ) (w w' : World T)
    (q : Response (String × String)) : Type 0 where
  added :
      (name : String)
      → q ≡ reply 201 (fresh, name)
      → w'.functions ≡ new_function fresh now name ∷ w.functions
      → w'.faults ≡ []
      → Calm fresh now w w' q
  refused :
      is_ok_status q.status ≡ false
      → w'.functions ≡ w.functions
      → w'.faults ≡ []
      → Calm fresh now w w' q

module _ {T : Type 0} (fresh : String) (now : ℕ) (w : World T) (calm : w.faults ≡ []) where
  register_named-Calm :
      (name : String)
      → let (r, w') = register_named fresh now name w in
        (q : Response (String × String)) × (r ≡ ok q) × Calm fresh now w w' q
  unfolding register_named insert_function query insert
  register_named-Calm name =
      elim (Bool-cases (any (clash functions (new_function fresh now name)) w.functions)) [
        | inl e ↦ (
          fail 409 (template ("a function named '" ∷ name ∷ "' already exists" ∷ [])),
          ground arith,
          refused refl (ground arith) (ground arith),
        )
        | inr e ↦
            (reply 201 (fresh, name), ground arith, added name refl (ground arith) (ground arith))
      ]

  pub delete_function-calm :
      (store : FetchRequest → T → Fetched × T) (parse : String → Option Json)
      (encode : String → String)
      → is_function_id fresh ≡ true
      → (store (store_request store parse encode fresh) w.remote).0 ≡ answered 200 ""
      → let w' = (delete_function store parse encode fresh now w).1 in
        (w'.functions ≡ retire_rows functions fresh now w.functions) × (w'.faults ≡ [])
  unfolding delete_function send after_store retire_function query
  delete_function-calm store parse encode h answer = (ground arith, ground arith)

  pub register_function-Calm :
      (zod : String → Option Json → String) (body : Json)
      → let (r, w') = register_function zod fresh now body w in
        (q : Response (String × String)) × (r ≡ ok q) × Calm fresh now w w' q
  unfolding register_function
  register_function-Calm zod body = parsed (parse_name_body zod body)
    where
      parsed :
          (p : Parsed String)
          → let (r, w') =
              (elim p as (λ _. M T (Response (String × String))) [
                | failure message ↦ pure (fail 400 message)
                | success name ↦ register_named fresh now name
              ])
                w in
            (q : Response (String × String)) × (r ≡ ok q) × Calm fresh now w w' q
      parsed (failure message) = (fail 400 message, refl, refused refl refl calm)
      parsed (success name) = register_named-Calm name

-- rows that do not hold the name, and those that are retired, leave it free
module _ (fresh : String) (now : ℕ) (name : String) where
  abbrev pub IsOther : FunctionRow → Type 0
  IsOther r = (functions.is_live r && str_eq r.name name) ≡ false

  pub retire_rows-IsOther :
      (rows : List FunctionRow)
      → All IsOther rows
      → All IsOther (retire_rows functions fresh now rows)
  unfolding retire_rows
  retire_rows-IsOther [] h = tt
  retire_rows-IsOther (r ∷ rows) h = elim (Bool-cases (is_live_id functions fresh r)) [
    | inl e ↦ rw e (refl, retire_rows-IsOther rows h.1)
    | inr e ↦ rw e (h.0, retire_rows-IsOther rows h.1)
  ]

  pub retire_rows-new :
      (other : String) (rows : List FunctionRow)
      → All IsOther rows
      → All IsOther (retire_rows functions fresh now (new_function fresh now other ∷ rows))
  unfolding retire_rows
  retire_rows-new other rows h = rw (eq_refl fresh) (refl, retire_rows-IsOther rows h)
