-- ===== src/Models.antt =====
-- frontend/lib/models.ts and frontend/lib/id.ts: the formats that request bodies and ids are
-- checked against, and the display form of an id. `safeParse` returns the first issue's message;
-- the texts that zod itself words (a value of the wrong type) are the parameter `zod`.
pub mod Ids
pub mod Schemas
mod Tests
use foxplay_game.Common.{
  ℕ, zero, suc, String, Bool, true, false, ◌&&◌, ◌||◌, List, [], ◌∷◌, ◌++◌, map, Option, none, some,
  leb, ◌==◌, if◌then◌else◌, codes, length, all, take,
}
use foxplay_game.Json.{Json, str, obj, Fields, get}

unfoldable pub between : ℕ → ℕ → ℕ → Bool
between lo hi c = leb lo c && leb c hi

-- `[a-z]`, `[0-9a-f]`, `[a-z0-9-]` and `[A-Za-z0-9+/=]`
unfoldable pub is_lower : ℕ → Bool
unfolding between
is_lower c = between b'a' b'z' c

unfoldable pub is_hex : ℕ → Bool
unfolding between
is_hex c = between b'0' b'9' c || between b'a' b'f' c

unfoldable pub is_name_char : ℕ → Bool
unfolding between
is_name_char c = between b'a' b'z' c || between b'0' b'9' c || c == b'-'

unfoldable pub is_base64 : ℕ → Bool
unfolding between
is_base64 c =
    between b'A' b'Z' c
    || between b'a' b'z' c
    || between b'0' b'9' c
    || c == b'+'
    || c == b'/'
    || c == b'='

-- the class `\s`
unfoldable pub is_space : ℕ → Bool
unfolding between
is_space c =
    between 9 13 c
    || c == 32
    || c == 0xa0
    || c == 0x1680
    || between 0x2000 0x200a c
    || c == 0x2028
    || c == 0x2029
    || c == 0x202f
    || c == 0x205f
    || c == 0x3000
    || c == 0xfeff

-- `/^[a-z0-9-]{1,most}$/`
unfoldable pub is_label : ℕ → String → Bool
unfolding is_name_char
is_label most s =
    all is_name_char (codes s) && leb 1 (length (codes s)) && leb (length (codes s)) most

unfoldable pub is_function_name : String → Bool
unfolding is_label
is_function_name = is_label 64

unfoldable pub is_base_image : String → Bool
unfolding is_label
is_base_image = is_label 32

-- A regular expression of fixed length: a class of characters for each place.
unfoldable pub match_classes : List (ℕ → Bool) → List ℕ → Bool
match_classes [] [] = true
match_classes [] (c ∷ cs) = false
match_classes (p ∷ ps) [] = false
match_classes (p ∷ ps) (c ∷ cs) = p c && match_classes ps cs

unfoldable pub times : ℕ → List (ℕ → Bool) → List (ℕ → Bool)
unfolding is_hex
times zero ps = ps
times (suc n) ps = is_hex ∷ times n ps

abbrev pub is_dash : ℕ → Bool
is_dash c = c == b'-'

-- `-[0-9a-f]{4}-[0-9a-f]{4}-[0-9a-f]{4}-[0-9a-f]{12}`
unfoldable pub later_groups : List (ℕ → Bool)
unfolding times
later_groups = is_dash ∷ times 4 (is_dash ∷ times 4 (is_dash ∷ times 4 (is_dash ∷ times 12 [])))

-- `-[0-9a-f]{8}` and the later groups
unfoldable pub uuid_tail : List (ℕ → Bool)
unfolding times later_groups
uuid_tail = is_dash ∷ times 8 later_groups

unfoldable pub is_prefixed_id : String → String → Bool
unfolding match_classes uuid_tail
is_prefixed_id prefix s =
    match_classes (map (λ (p : ℕ) (c : ℕ). c == p) (codes prefix) ++ uuid_tail) (codes s)

abbrev pub is_function_id : String → Bool
is_function_id = is_prefixed_id "fn"

abbrev pub is_deployment_id : String → Bool
is_deployment_id = is_prefixed_id "art"

abbrev pub is_invocation_id : String → Bool
is_invocation_id = is_prefixed_id "log"

abbrev pub is_instance_id : String → Bool
is_instance_id = is_prefixed_id "srv"

abbrev pub is_ssh_key_id : String → Bool
is_ssh_key_id = is_prefixed_id "key"

-- what stands behind a literal at the start of a text
unfoldable pub strip : List ℕ → List ℕ → Option (List ℕ)
strip [] cs = some cs
strip (p ∷ ps) [] = none
strip (p ∷ ps) (c ∷ cs) = if c == p then strip ps cs else none

-- ` [A-Za-z0-9+/=]+`, not anchored at its end
unfoldable pub starts_key_body : List ℕ → Bool
unfolding is_base64
starts_key_body (sp ∷ c ∷ _) = sp == 32 && is_base64 c
starts_key_body _ = false

-- `\S*` and then a key's body. The run of `\S` ends where a space stands, so it needs no choice.
unfoldable pub skip_word : List ℕ → Bool
unfolding is_space starts_key_body
skip_word [] = false
skip_word (c ∷ cs) = if is_space c then starts_key_body (c ∷ cs) else skip_word cs

unfoldable pub ecdsa_curve : List ℕ → Bool
unfolding is_space skip_word
ecdsa_curve [] = false
ecdsa_curve (c ∷ cs) = if is_space c then false else skip_word cs

abbrev key_type : String → (List ℕ → Bool) → List ℕ → Bool
key_type literal next cs = elim (strip (codes literal) cs) [ none ↦ false | some rest ↦ next rest ]

-- `/^(ssh-ed25519|ssh-rsa|ecdsa-sha2-\S+) [A-Za-z0-9+/=]+/`
unfoldable pub is_ssh_public_key : String → Bool
unfolding strip starts_key_body ecdsa_curve
is_ssh_public_key s =
    key_type "ssh-ed25519" starts_key_body (codes s)
    || key_type "ssh-rsa" starts_key_body (codes s)
    || key_type "ecdsa-sha2-" ecdsa_curve (codes s)

-- `safeParse`: the data, or the message of the first issue
pub data Parsed (A : Type 0) : Type 0 where
  success : A → Parsed A
  failure : String → Parsed A

infixl 5 ◌>>=◌
abbrev pub ◌>>=◌ : {A B : Type 0} → Parsed A → (A → Parsed B) → Parsed B
success a >>= k = k a
failure message >>= k = failure message

pub record InstanceCreate : Type 0 where
  pub name : String
  pub base_image : String
  pub ssh_public_key : String

pub record SshKeyCreate : Type 0 where
  pub name : String
  pub public_key : String

abbrev checked : (String → Bool) → String → String → Parsed String
checked ok message s = if ok s then success s else failure message

-- `zod at value` words the issue of a value that has the wrong type at the field `at`.
module _ (zod : String → Option Json → String) where
  -- `z.string().regex(…)` at one key of the object
  unfoldable pub string_field : String → (String → Bool) → String → Fields → Parsed String
  unfolding get
  string_field key ok message fs = elim (get key fs) [
    | some (str s) ↦ checked ok message s
    | some v ↦ failure (zod key (some v))
    | none ↦ failure (zod key none)
  ]

  -- the same with `.default(d)`
  unfoldable pub default_field : String → String → (String → Bool) → String → Fields → Parsed String
  unfolding get
  default_field d key ok message fs = elim (get key fs) [
    | some (str s) ↦ checked ok message s
    | some v ↦ failure (zod key (some v))
    | none ↦ success d
  ]

  abbrev pub name_field : Fields → Parsed String
  name_field =
      string_field "name" is_function_name "Use lowercase letters, digits, and hyphens only"

  unfoldable pub parse_name_body : Json → Parsed String
  unfolding string_field
  parse_name_body (obj fs) = name_field fs
  parse_name_body v = failure (zod "" (some v))

  unfoldable pub parse_ssh_key_create : Json → Parsed SshKeyCreate
  unfolding string_field
  parse_ssh_key_create (obj fs) = do
    name ← name_field fs
    public_key ←
        string_field "public_key" is_ssh_public_key
          "Paste a valid SSH public key (starts with ssh-ed25519, ssh-rsa, …)" fs
    success (record { name = name; public_key = public_key })
  parse_ssh_key_create v = failure (zod "" (some v))

  unfoldable pub parse_instance_create : Json → Parsed InstanceCreate
  unfolding string_field default_field
  parse_instance_create (obj fs) = do
    name ← name_field fs
    base_image ← default_field "alpine" "base_image" is_base_image "invalid image" fs
    ssh_public_key ←
        string_field "ssh_public_key" is_ssh_public_key
          "Paste a valid SSH public key (starts with ssh-ed25519, ssh-rsa, …)" fs
    success (record { name = name; base_image = base_image; ssh_public_key = ssh_public_key })
  parse_instance_create v = failure (zod "" (some v))

-- `id.replace(/^[a-z]+-/, "")`: the run of letters must be followed by a dash
unfoldable pub drop_prefix : List ℕ → Option (List ℕ)
unfolding is_lower
drop_prefix [] = none
drop_prefix (c ∷ cs) = if c == b'-' then some cs else if is_lower c then drop_prefix cs else none

abbrev pub replaced : List ℕ → Option (List ℕ) → List ℕ
replaced whole none = whole
replaced whole (some rest) = rest

abbrev pub starts_lower : List ℕ → Bool
starts_lower [] = false
starts_lower (c ∷ cs) = is_lower c

-- `shortId`
unfoldable pub short_id : List ℕ → List ℕ
unfolding drop_prefix is_lower
short_id id = take 8 (if starts_lower id then replaced id (drop_prefix id) else id)
