-- ===== src/Registry/Tests.antt =====
-- Tests and examples for the registries: empty tables, and an artifact store that takes every request.
use foxplay_game.Common.{String, [], ◌∷◌, Option, some, ◌≡◌, refl}
use foxplay_game.Json.{Json, str, obj, field, end}
use foxplay_game.Models.{is_prefixed_id, parse_ssh_key_create}
use foxplay_game.Server.{World, Fetched, answered, ok, Response}
use foxplay_game.Server.Manager.{FetchRequest, send}
use foxplay_game.Registry.Functions.{new_function, delete_function, store_request}
use foxplay_game.Registry.Functions.Deletion.{Deleted, delete_function-Deleted}
use foxplay_game.Registry.Keys.{NewKey, create_key, trim}
use foxplay_game.Registry.Keys.Saved.{Saved, create_key-Saved}

abbrev fetch : FetchRequest → Unit {0} → Fetched × Unit {0}
fetch req u = (answered 200 "{}", u)

abbrev parse : String → Option Json
parse text = some (obj end)

abbrev zod : String → Option Json → String
zod key v = "Invalid input"

abbrev encode : String → String
encode id = id

abbrev id : String
id = "fn-b8965196-1caf-4d21-b4f0-6bdc5f6a617e"

abbrev key_id : String
key_id = "key-b8965196-1caf-4d21-b4f0-6bdc5f6a617e"

abbrev empty : World (Unit {0})
empty = record { instances = []; functions = []; ssh_keys = []; faults = []; remote = tt }

abbrev body : Json
body = obj (field "name" (str "laptop") (field "public_key" (str "ssh-ed25519 AAAA me \n") end))

abbrev one : World (Unit {0})
one = record empty { functions = new_function id 7 "hello" ∷ [] }

trimmed : trim " ssh-rsa AAAA b \n" ≡ "ssh-rsa AAAA b"
unfolding trim
trimmed = refl

delete_function-Deleted_example :
    let (r, w') = delete_function fetch parse encode id 9 one in
    (q : Response (Unit {0})) × (r ≡ ok q)
    × Deleted (send fetch parse (store_request fetch parse encode id) one).0 id 9 one w' q
unfolding is_prefixed_id
delete_function-Deleted_example = delete_function-Deleted fetch parse encode id 9 one refl

create_key-Saved_example :
    let (r, w') = create_key zod key_id 7 body empty in
    (q : Response NewKey) × (r ≡ ok q) × Saved (parse_ssh_key_create zod body) key_id 7 empty w' q
create_key-Saved_example = create_key-Saved zod key_id 7 body empty

abbrev saved : World (Unit {0})
saved = (create_key zod key_id 7 body empty).1
