-- ===== src/Registry/Keys.antt =====
-- frontend/app/api/ssh-keys/route.ts and frontend/app/api/ssh-keys/[id]/route.ts: the saved keys.
pub mod Saved
use Prim.Native.Char.{code}
use Prim.Native.String
use foxplay_game.Common.{
  ℕ, String, not, ◌&&◌, List, [], ◌∷◌, map, Option, none, some, refl, template, str_eq, sort_desc,
  if◌then◌else◌,
}
use foxplay_game.Json.{Json}
use foxplay_game.Models.{
  success, failure, SshKeyCreate, parse_ssh_key_create, is_ssh_key_id, is_space,
}
use foxplay_game.Server.{
  SshKeyRow, ok, thrown, Thrown, M, pure, ◌>>=◌, try_catch, query, Response, fail, reply,
  is_duplicate,
}
use foxplay_game.Registry.{Labelled, insert, retire_rows, live_rows}
use foxplay_game.Registry.Functions.{owner, live}

abbrev pub ssh_keys : Labelled SshKeyRow
ssh_keys = record {
  id_of = λ r. r.id;
  owner_of = λ r. owner r.user_id;
  name_of = λ r. r.name;
  is_live = λ r. live r.deleted_at;
  retire = λ now r. record r { deleted_at = some now };
  retire_id = λ now r. refl;
  retire_dead = λ now r. refl;
}

-- `trim()`, from the end and from the front
unfoldable pub trim_end : String → String
unfolding is_space
trim_end String.[] = ""
trim_end (String.◌∷◌ c s) =
    let rest = trim_end s in if is_space (code c) && str_eq rest "" then "" else String.◌∷◌ c rest

unfoldable pub trim_start : String → String
unfolding is_space
trim_start String.[] = ""
trim_start (String.◌∷◌ c s) =
    let rest = trim_start s in if is_space (code c) then rest else String.◌∷◌ c s

unfoldable pub trim : String → String
unfolding trim_end trim_start
trim s = trim_end (trim_start s)

-- `SELECT id, name, public_key, created_at`
pub record KeyItem : Type 0 where
  pub id : String
  pub name : String
  pub public_key : String
  pub created_at : ℕ

abbrev pub key_item : SshKeyRow → KeyItem
key_item r = record {
  id = r.id;
  name = r.name;
  public_key = r.public_key;
  created_at = r.created_at;
}

-- `RETURNING id, name, public_key`
pub record NewKey : Type 0 where
  pub id : String
  pub name : String
  pub public_key : String

abbrev pub returned_key : SshKeyRow → NewKey
returned_key r = record { id = r.id; name = r.name; public_key = r.public_key }

unfoldable pub new_key : String → ℕ → SshKeyCreate → SshKeyRow
unfolding trim
new_key fresh now input = record {
  id = fresh;
  name = input.name;
  public_key = trim input.public_key;
  user_id = none;
  created_at = now;
  deleted_at = none;
}

abbrev pub newest_first : List KeyItem → List KeyItem
newest_first = sort_desc (λ k. k.created_at)

module _ {S : Type 0} where
  unfoldable pub list_keys : M S (Response (List KeyItem))
  unfolding query sort_desc
  list_keys =
      try_catch
        (query (λ w. (ok (newest_first (map key_item (live_rows ssh_keys w.ssh_keys))), w))
          >>= λ rows. pure (reply 200 rows))
        (λ _. pure (fail 500 "query failed"))

  -- the statement of POST, with the row that it returns
  unfoldable pub insert_key : SshKeyRow → M S NewKey
  unfolding query insert
  insert_key row = query (λ w. elim (insert ssh_keys row w.ssh_keys) [
    | ok rows ↦ (ok (returned_key row), record w { ssh_keys = rows })
    | thrown e ↦ (thrown e, w)
  ])

  -- the `catch` of POST
  abbrev pub create_key_failed : String → Thrown → M S (Response NewKey)
  create_key_failed name e =
      if is_duplicate e
      then pure (fail 409 (template ("a key named '" ∷ name ∷ "' already exists" ∷ [])))
      else pure (fail 500 "insert failed")

  -- POST, once the body is parsed
  unfoldable pub save_key : String → ℕ → SshKeyCreate → M S (Response NewKey)
  unfolding insert_key new_key
  save_key fresh now input =
      try_catch (insert_key (new_key fresh now input) >>= λ row. pure (reply 201 row))
        (create_key_failed input.name)

  unfoldable pub create_key :
      (String → Option Json → String) → String → ℕ → Json → M S (Response NewKey)
  unfolding parse_ssh_key_create save_key
  create_key zod fresh now body = elim (parse_ssh_key_create zod body) [
    | failure message ↦ pure (fail 400 message)
    | success input ↦ save_key fresh now input
  ]

  -- `UPDATE ssh_keys SET deleted_at = now() WHERE id = $1 AND deleted_at IS NULL`
  unfoldable pub retire_key : String → ℕ → M S (Unit {0})
  unfolding query retire_rows
  retire_key id now =
      query (λ w. (ok tt, record w { ssh_keys = retire_rows ssh_keys id now w.ssh_keys }))

  unfoldable pub delete_key : String → ℕ → M S (Response (Unit {0}))
  unfolding retire_key
  delete_key id now =
      if not (is_ssh_key_id id)
      then pure (fail 404 "not found")
      else try_catch (retire_key id now >>= λ _. pure (reply 200 tt))
          (λ _. pure (fail 500 "delete failed"))
