-- ===== src/Registry/Functions.antt =====
-- frontend/app/api/functions/route.ts and DELETE of frontend/app/api/functions/[id]/route.ts: the
-- registry of functions. `sorted` is the order of the database by name, `encode` is
-- `encodeURIComponent`, `fetch` reaches the artifact store, `zod`, `now` and `fresh` are the messages
-- of zod, the clock and the new id.
pub mod Deletion
use foxplay_game.Common.{
  ℕ, String, Bool, true, false, not, List, [], ◌∷◌, map, Option, none, some, refl, template,
  if◌then◌else◌,
}
use foxplay_game.Json.{Json}
use foxplay_game.Models.{success, failure, parse_name_body, is_function_id}
use foxplay_game.Server.{
  FunctionRow, ok, thrown, Thrown, M, pure, ◌>>=◌, try_catch, query, Response, fail, reply,
  is_duplicate, is_ok_status, Fetched,
}
use foxplay_game.Server.Manager.{FetchRequest, send}
use foxplay_game.Registry.{Labelled, insert, retire_rows, live_rows}

abbrev pub owner : Option String → String
owner none = ""
owner (some user) = user

abbrev pub live : Option ℕ → Bool
live none = true
live (some time) = false

abbrev pub functions : Labelled FunctionRow
functions = record {
  id_of = λ r. r.id;
  owner_of = λ r. owner r.user_id;
  name_of = λ r. r.name;
  is_live = λ r. live r.deleted_at;
  retire = λ now r. record r { deleted_at = some now };
  retire_id = λ now r. refl;
  retire_dead = λ now r. refl;
}

-- `SELECT id, name, created_at`
pub record FunctionItem : Type 0 where
  pub id : String
  pub name : String
  pub created_at : ℕ

abbrev function_item : FunctionRow → FunctionItem
function_item r = record { id = r.id; name = r.name; created_at = r.created_at }

abbrev pub new_function : String → ℕ → String → FunctionRow
new_function fresh now name = record {
  id = fresh;
  name = name;
  user_id = none;
  created_at = now;
  deleted_at = none;
}

module _ {S : Type 0} where
  unfoldable pub list_functions :
      (List FunctionItem → List FunctionItem) → M S (Response (List FunctionItem))
  unfolding query
  list_functions sorted =
      try_catch
        (query (λ w. (ok (sorted (map function_item (live_rows functions w.functions))), w))
          >>= λ rows. pure (reply 200 rows))
        (λ _. pure (fail 500 "query failed"))

  -- the statement of POST, with the row that it returns
  unfoldable pub insert_function : FunctionRow → M S (String × String)
  unfolding query insert
  insert_function row = query (λ w. elim (insert functions row w.functions) [
    | ok rows ↦ (ok (row.id, row.name), record w { functions = rows })
    | thrown e ↦ (thrown e, w)
  ])

  -- the `catch` of POST
  abbrev pub register_failed : String → Thrown → M S (Response (String × String))
  register_failed name e =
      if is_duplicate e
      then pure (fail 409 (template ("a function named '" ∷ name ∷ "' already exists" ∷ [])))
      else pure (fail 500 "insert failed")

  -- POST, once the body is parsed
  unfoldable pub register_named : String → ℕ → String → M S (Response (String × String))
  unfolding insert_function
  register_named fresh now name =
      try_catch (insert_function (new_function fresh now name) >>= λ row. pure (reply 201 row))
        (register_failed name)

  unfoldable pub register_function :
      (String → Option Json → String) → String → ℕ → Json → M S (Response (String × String))
  unfolding parse_name_body register_named
  register_function zod fresh now body = elim (parse_name_body zod body) [
    | failure message ↦ pure (fail 400 message)
    | success name ↦ register_named fresh now name
  ]

  -- `UPDATE functions SET deleted_at = now() WHERE id = $1 AND deleted_at IS NULL`
  unfoldable pub retire_function : String → ℕ → M S (Unit {0})
  unfolding query retire_rows
  retire_function id now =
      query (λ w. (ok tt, record w { functions = retire_rows functions id now w.functions }))

  -- DELETE, once the store has answered
  unfoldable pub after_store : String → ℕ → ℕ × String → M S (Response (Unit {0}))
  unfolding retire_function
  after_store id now (status, text) =
      if not (is_ok_status status)
      then pure (fail 502 (template ("server code delete failed: " ∷ text ∷ [])))
      else retire_function id now >>= λ _. pure (reply 200 tt)

module _ {S : Type 0} (fetch : FetchRequest → S → Fetched × S) (parse : String → Option Json)
    (encode : String → String) where
  abbrev pub store_request : String → FetchRequest
  store_request id = record {
    method = "DELETE";
    path = template ("/delete/" ∷ encode id ∷ []);
    body = none;
  }

  unfoldable pub delete_function : String → ℕ → M S (Response (Unit {0}))
  unfolding send after_store
  delete_function id now =
      if not (is_function_id id)
      then pure (fail 404 "not found")
      else try_catch (send fetch parse (store_request id) >>= after_store id now)
          (λ _. pure (fail 500 "delete failed"))
