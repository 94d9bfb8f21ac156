-- ===== src/Client/Create/Accepted.antt =====
-- What the schemas of frontend/lib/models.ts say of the data that they give.
use foxplay_game.Common.{String, true, Option, ◌≡◌, refl, inl, inr, arith}
use foxplay_game.Json.{Json, obj, get}
use foxplay_game.Models.{
  success, InstanceCreate, SshKeyCreate, parse_instance_create, parse_ssh_key_create,
  is_function_name, is_base_image, is_ssh_public_key, string_field, default_field,
}
use foxplay_game.Models.Schemas.{IsKeyBody, IsServerBody, schemas_accept}
use foxplay_game.Client.Hooks.{key_body, instance_body}

pub record IsGoodKey (d : SshKeyCreate) : Type 0 where
  pub name : is_function_name d.name ≡ true
  pub key : is_ssh_public_key d.public_key ≡ true

pub record IsGoodServer (d : InstanceCreate) : Type 0 where
  pub name : is_function_name d.name ≡ true
  pub image : is_base_image d.base_image ≡ true
  pub key : is_ssh_public_key d.ssh_public_key ≡ true

module _ (zod : String → Option Json → String) where
  pub parse_ssh_key_create-IsGoodKey :
      (v : Json) (d : SshKeyCreate) → parse_ssh_key_create zod v ≡ success d → IsGoodKey d
  parse_ssh_key_create-IsGoodKey v d e = good v (((schemas_accept zod v).0 d).0 e)
    where
      good : (v : Json) → IsKeyBody v d → IsGoodKey d
      good (obj fs) h = record { name = h.0.1; key = h.1.1 }
      good v h = absurd (ground arith)

  pub parse_instance_create-IsGoodServer :
      (v : Json) (d : InstanceCreate) → parse_instance_create zod v ≡ success d → IsGoodServer d
  unfolding is_base_image
  parse_instance_create-IsGoodServer v d e = good v (((schemas_accept zod v).1 d).0 e)
    where
      good : (v : Json) → IsServerBody v d → IsGoodServer d
      good (obj fs) (name, inl h, key) = record { name = name.1; image = h.1; key = key.1 }
      good (obj fs) (name, inr h, key) = record { name = name.1; image = rw h.1 refl; key = key.1 }
      good v h = absurd (ground arith)

  -- the route's own parse takes the body again
  pub IsGoodKey-parsed :
      (d : SshKeyCreate) → IsGoodKey d → parse_ssh_key_create zod (key_body d) ≡ success d
  unfolding parse_ssh_key_create string_field get
  IsGoodKey-parsed d h = rw (h.name, h.key) refl

  pub IsGoodServer-parsed :
      (d : InstanceCreate)
      → IsGoodServer d
      → parse_instance_create zod (instance_body d) ≡ success d
  unfolding parse_instance_create string_field default_field get
  IsGoodServer-parsed d h = rw (h.name, h.image, h.key) refl
