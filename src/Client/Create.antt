-- ===== src/Client/Create.antt =====
-- frontend/features/servers/components/CreateInstanceClient.tsx, and the form of a saved key:
-- frontend/features/ssh-keys/components/CreateSshKeyForm.tsx and SshKeysClient.tsx.
pub mod Accepted
pub mod Sent
use foxplay_game.Common.{
  String, Bool, true, false, not, List, [], ◌∷◌, ◌++◌, Option, none, some, str_eq, find, template,
  if◌then◌else◌,
}
use foxplay_game.Json.{Json, null, bool, num, str, obj, field, end, get}
use foxplay_game.Models.{
  Parsed, success, failure, InstanceCreate, SshKeyCreate, parse_instance_create,
  parse_ssh_key_create,
}
use foxplay_game.Registry.Keys.{trim}
use foxplay_game.Server.{Res, ok, thrown, Fetched}
use foxplay_game.Client.Hooks.{Request, member_of, create_server, create_key, remove_key}
use foxplay_game.Client.Toasts.{Toast, success_toast, error_toast}

-- the fields of the form
pub record Form : Type 0 where
  pub name : String
  pub image : String
  pub key_choice : String
  pub new_key_name : String
  pub new_key_text : String

pub record SavedKey : Type 0 where
  pub id : String
  pub public_key : String

-- what a handler leaves on its page
pub record Page : Type 0 where
  pub busy : Bool
  pub toasts : List Toast
  pub location : Option String

abbrev pub new_key : String
new_key = "__new__"

abbrev first_key : String → List SavedKey → String
first_key choice [] = choice
first_key choice (k ∷ keys) = k.id

-- the effect that chooses the first key once the keys are loaded
unfoldable pub choose_first : List SavedKey → Form → Form
choose_first keys form =
    if str_eq form.key_choice new_key
    then record form { key_choice = first_key form.key_choice keys }
    else form

-- `!value`
abbrev pub is_falsy : Option Json → Bool
is_falsy none = true
is_falsy (some null) = true
is_falsy (some (bool b)) = not b
is_falsy (some (num n)) = str_eq n "0"
is_falsy (some (str s)) = str_eq s ""
is_falsy (some v) = false

abbrev stopped : List Toast → Page
stopped toasts = record { busy = false; toasts = toasts; location = none }

-- the value that is checked for a saved key
abbrev pub key_input : String → String → Json
key_input name text =
    obj (field "name" (str (trim name)) (field "public_key" (str (trim text)) end))

abbrev public_key_of : Res Json → Res (Option Json)
public_key_of (ok v) = member_of "public_key" v
public_key_of (thrown e) = thrown e

abbrev resolved : Res (Option Json) → Option Json × List Toast
resolved (ok v) = (v, [])
resolved (thrown e) = (none, error_toast "Saving key failed" (some e.message) ∷ [])

abbrev chosen_key : Option SavedKey → Option Json × List Toast
chosen_key none = (none, error_toast "Select an SSH key" none ∷ [])
chosen_key (some k) = (some (str k.public_key), [])

-- the value that is checked for a new server, once there is a key
abbrev pub server_input : Form → Option Json → Json
server_input form none =
    obj (field "name" (str (trim form.name)) (field "base_image" (str form.image) end))
server_input form (some key) = obj (
    field "name" (str (trim form.name))
      (field "base_image" (str form.image) (field "ssh_public_key" key end)))

-- the form of a key: its two texts, which a success clears
pub record KeyForm : Type 0 where
  pub name : String
  pub text : String

module _ {S : Type 0} (zod : String → Option Json → String) (text_of : Json → String)
    (parse : String → Option Json) (fetch : Request → S → Fetched × S)
    (encode : String → String) where
  abbrev pub save_new : Parsed SshKeyCreate → S → (Option Json × List Toast) × S
  save_new (failure message) s = ((none, error_toast "Invalid key" (some message) ∷ []), s)
  save_new (success d) s =
      let (r, s') = create_key text_of parse fetch encode d s in (resolved (public_key_of r), s')

  -- `resolvePublicKey`, with the toasts that it leaves
  unfoldable pub resolve_public_key : Form → List SavedKey → S → (Option Json × List Toast) × S
  unfolding parse_ssh_key_create create_key trim get
  resolve_public_key form keys s =
      if str_eq form.key_choice new_key
      then save_new (parse_ssh_key_create zod (key_input form.new_key_name form.new_key_text)) s
      else (chosen_key (find (λ k. str_eq k.id form.key_choice) keys), s)

  abbrev pub after_create : String → List Toast → Res Json × S → Page × S
  after_create name toasts (ok v, s) =
      let done = success_toast "Server created" (some (template (name ∷ " is booting" ∷ []))) in
      (record { busy = false; toasts = toasts ++ (done ∷ []); location = some "/servers" }, s)
  after_create name toasts (thrown e, s) =
      (stopped (toasts ++ (error_toast "Create failed" (some e.message) ∷ [])), s)

  abbrev pub after_parse : List Toast → Parsed InstanceCreate → S → Page × S
  after_parse toasts (failure message) s =
      (stopped (toasts ++ (error_toast "Invalid input" (some message) ∷ [])), s)
  after_parse toasts (success d) s =
      after_create d.name toasts (create_server text_of parse fetch encode d s)

  abbrev pub after_resolve : Form → (Option Json × List Toast) × S → Page × S
  after_resolve form ((key, toasts), s) =
      if is_falsy key
      then (stopped toasts, s)
      else after_parse toasts (parse_instance_create zod (server_input form key)) s

  unfoldable pub handle_create : Form → List SavedKey → S → Page × S
  unfolding resolve_public_key parse_instance_create create_server
  handle_create form keys s = after_resolve form (resolve_public_key form keys s)

  abbrev pub after_save : KeyForm → String → Res Json × S → (KeyForm × Page) × S
  after_save form name (ok v, s) =
      ((record { name = ""; text = "" }, stopped (success_toast "Key saved" (some name) ∷ [])), s)
  after_save form name (thrown e, s) =
      ((form, stopped (error_toast "Save failed" (some e.message) ∷ [])), s)

  abbrev pub save_parsed : KeyForm → Parsed SshKeyCreate → S → (KeyForm × Page) × S
  save_parsed form (failure message) s =
      ((form, stopped (error_toast "Invalid input" (some message) ∷ [])), s)
  save_parsed form (success d) s =
      after_save form d.name (create_key text_of parse fetch encode d s)

  -- `handleSave`, without `onCreated`, which no page gives
  unfoldable pub handle_save : KeyForm → S → (KeyForm × Page) × S
  unfolding parse_ssh_key_create create_key trim
  handle_save form s = save_parsed form (parse_ssh_key_create zod (key_input form.name form.text)) s

  abbrev pub after_remove : String → Res String × S → List Toast × S
  after_remove name (ok text, s) = (success_toast "Key deleted" (some name) ∷ [], s)
  after_remove name (thrown e, s) = (error_toast "Delete failed" (some e.message) ∷ [], s)

  -- `handleRemove`; `confirmed` is the answer of `window.confirm`
  unfoldable pub handle_remove : Bool → String → String → S → List Toast × S
  unfolding remove_key
  handle_remove confirmed id name s =
      if confirmed then after_remove name (remove_key text_of parse fetch encode id s) else ([], s)
