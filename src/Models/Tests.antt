-- ===== src/Models/Tests.antt =====
-- Tests and examples for Models.
use foxplay_game.Common.{◌↔◌, Option, String, ◌≡◌, refl, true, false, codes}
use foxplay_game.Json.{Json, str, obj, field, end}
use foxplay_game.Models.Schemas.{IsKeyBody, IsServerBody, schemas_accept}
use foxplay_game.Models.{
  is_prefixed_id, is_ssh_public_key, is_function_name, short_id, success, SshKeyCreate,
  InstanceCreate, parse_ssh_key_create, parse_instance_create,
}

abbrev zod : String → Option Json → String
zod key v = "Invalid input"

abbrev body : Json
body = obj (field "name" (str "box") (field "ssh_public_key" (str "ssh-ed25519 AAAA") end))

id_accepted : is_prefixed_id "srv" "srv-b8965196-1caf-4d21-b4f0-6bdc5f6a617e" ≡ true
unfolding is_prefixed_id
id_accepted = refl

id_rejected : is_prefixed_id "srv" "fn-b8965196-1caf-4d21-b4f0-6bdc5f6a617e" ≡ false
unfolding is_prefixed_id
id_rejected = refl

key_ecdsa : is_ssh_public_key "ecdsa-sha2-nistp256 AAAA me@host" ≡ true
unfolding is_ssh_public_key
key_ecdsa = refl

key_bare : is_ssh_public_key "ssh-rsa" ≡ false
unfolding is_ssh_public_key
key_bare = refl

name_upper : is_function_name "My-fn" ≡ false
unfolding is_function_name
name_upper = refl

short : short_id (codes "fn-b8965196-1caf-4d21-b4f0-6bdc5f6a617e") ≡ codes "b8965196"
unfolding short_id
short = refl

abbrev id : String
id = "srv-b8965196-1caf-4d21-b4f0-6bdc5f6a617e"

schemas_accept_example :
    ((k : SshKeyCreate) → (parse_ssh_key_create zod body ≡ success k) ↔ IsKeyBody body k)
    × ((d : InstanceCreate) → (parse_instance_create zod body ≡ success d) ↔ IsServerBody body d)
schemas_accept_example = schemas_accept zod body
