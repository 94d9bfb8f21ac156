-- ===== src/Models/Schemas.antt =====
-- What the schemas of frontend/lib/models.ts for new keys and servers accept.
use mathlib.Core.Path.{subst}
use foxplay_game.Common.{
  String, Bool, true, Option, none, some, ◌≡◌, refl, ap, ◌⊎◌, inl, inr, ◌↔◌, arith,
}
use foxplay_game.Json.{Json, str, obj, get, Fields}
use foxplay_game.Models.{
  Parsed, success, failure, InstanceCreate, SshKeyCreate, parse_instance_create,
  parse_ssh_key_create, is_function_name, is_base_image, is_ssh_public_key, string_field,
  default_field, ◌>>=◌,
}

abbrev unwrap : {A : Type 0} → A → Parsed A → A
unwrap a (success b) = b
unwrap a (failure message) = a

pub success-inj : {A : Type 0} {a b : A} → Path (Parsed A) (success a) (success b) → a ≡ b
success-inj {A} {a} {b} e = ap (unwrap a) e

-- the parts of a parse that went well
pub bind-success :
    {A B : Type 0} (m : Parsed A) (k : A → Parsed B) (b : B)
    → (m >>= k) ≡ success b
    → (a : A) × (m ≡ success a) × (k a ≡ success b)
bind-success (success a) k b e = (a, refl, e)
bind-success (failure message) k b e = absurd (ground arith)

-- The field holds this text, and the text has the form.
abbrev pub HasText : (String → Bool) → String → Fields → String → Type 0
HasText p key fs s = (get key fs ≡ some (str s)) × (p s ≡ true)

-- The field holds this text, or there is none and the text is the default.
abbrev pub HasTextOr : String → (String → Bool) → String → Fields → String → Type 0
HasTextOr default p key fs s = HasText p key fs s ⊎ ((get key fs ≡ none) × (s ≡ default))

abbrev pub IsKeyBody : Json → SshKeyCreate → Type 0
IsKeyBody (obj fs) d =
    HasText is_function_name "name" fs d.name
    × HasText is_ssh_public_key "public_key" fs d.public_key
IsKeyBody v d = ⊥

abbrev pub IsServerBody : Json → InstanceCreate → Type 0
IsServerBody (obj fs) d =
    HasText is_function_name "name" fs d.name
    × HasTextOr "alpine" is_base_image "base_image" fs d.base_image
    × HasText is_ssh_public_key "ssh_public_key" fs d.ssh_public_key
IsServerBody v d = ⊥

module _ (zod : String → Option Json → String) (p : String → Bool) (message : String) where
  string_field-HasText :
      (key : String) (fs : Fields) (s : String)
      → string_field zod key p message fs ≡ success s
      → HasText p key fs s
  unfolding string_field
  string_field-HasText key fs s e = ground arith

  HasText-string_field :
      (key : String) (fs : Fields) (s : String)
      → HasText p key fs s
      → string_field zod key p message fs ≡ success s
  unfolding string_field
  HasText-string_field key fs s h = ground arith

  default_field-HasTextOr :
      (default key : String) (fs : Fields) (s : String)
      → default_field zod default key p message fs ≡ success s
      → HasTextOr default p key fs s
  unfolding default_field
  default_field-HasTextOr default key fs s e = ground arith

  HasTextOr-default_field :
      (default key : String) (fs : Fields) (s : String)
      → HasTextOr default p key fs s
      → default_field zod default key p message fs ≡ success s
  unfolding default_field
  HasTextOr-default_field default key fs s (inl h) = ground arith
  HasTextOr-default_field default key fs s (inr h) = ground arith

module _ (zod : String → Option Json → String) where
  key_accepted :
      (v : Json) (k : SshKeyCreate) → parse_ssh_key_create zod v ≡ success k → IsKeyBody v k
  unfolding parse_ssh_key_create
  key_accepted (obj fs) k e =
      let (name, f, e') = bind-success _ _ k e in
      let (key, g, e'') = bind-success _ _ k e' in
      subst (IsKeyBody (obj fs)) (success-inj e'') (
        string_field-HasText zod is_function_name _ "name" fs name f,
        string_field-HasText zod is_ssh_public_key _ "public_key" fs key g,
      )
  key_accepted v k e = absurd (ground arith)

  key_given : (v : Json) (k : SshKeyCreate) → IsKeyBody v k → parse_ssh_key_create zod v ≡ success k
  unfolding parse_ssh_key_create
  key_given (obj fs) k h =
      rw
        (
          HasText-string_field zod is_function_name _ "name" fs k.name h.0,
          HasText-string_field zod is_ssh_public_key _ "public_key" fs k.public_key h.1,
        )
        refl
  key_given v k h = absurd (ground arith)

  server_accepted :
      (v : Json) (d : InstanceCreate) → parse_instance_create zod v ≡ success d → IsServerBody v d
  unfolding parse_instance_create
  server_accepted (obj fs) d e =
      let (name, f, e') = bind-success _ _ d e in
      let (image, g, e'') = bind-success _ _ d e' in
      let (key, h, e3) = bind-success _ _ d e'' in
      subst (IsServerBody (obj fs)) (success-inj e3) (
        string_field-HasText zod is_function_name _ "name" fs name f,
        default_field-HasTextOr zod is_base_image _ "alpine" "base_image" fs image g,
        string_field-HasText zod is_ssh_public_key _ "ssh_public_key" fs key h,
      )
  server_accepted v d e = absurd (ground arith)

  server_given :
      (v : Json) (d : InstanceCreate) → IsServerBody v d → parse_instance_create zod v ≡ success d
  unfolding parse_instance_create
  server_given (obj fs) d h =
      rw
        (
          HasText-string_field zod is_function_name _ "name" fs d.name h.0,
          HasTextOr-default_field zod is_base_image _ "alpine" "base_image" fs d.base_image h.1,
          HasText-string_field zod is_ssh_public_key _ "ssh_public_key" fs d.ssh_public_key h.2,
        )
        refl
  server_given v d h = absurd (ground arith)

  -- For every JSON value, `sshKeyCreateSchema` and `instanceCreateSchema` give data exactly where the
  -- value is an object whose fields are texts of the required forms, `base_image` being absent or
  -- such a text; and the data are these texts, with "alpine" for an absent `base_image`.
  pub schemas_accept :
      (v : Json)
      → ((k : SshKeyCreate) → (parse_ssh_key_create zod v ≡ success k) ↔ IsKeyBody v k)
        × ((d : InstanceCreate) → (parse_instance_create zod v ≡ success d) ↔ IsServerBody v d)
  schemas_accept v =
      (λ k. (key_accepted v k, key_given v k), λ d. (server_accepted v d, server_given v d))
