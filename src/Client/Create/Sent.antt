-- ===== src/Client/Create/Sent.antt =====
-- What the forms of a server and of a key send.
use foxplay_game.Common.{String, List, Option, ◌≡◌, refl, inl, inr, str_eq, Bool-cases}
use foxplay_game.Json.{Json}
use foxplay_game.Models.{
  Parsed, success, failure, InstanceCreate, SshKeyCreate, parse_instance_create,
  parse_ssh_key_create,
}
use foxplay_game.Server.{Res, ok, thrown, Fetched, rejected, answered}
use foxplay_game.Client.Hooks.{
  Request, post_json, key_body, instance_body, checked, send, then_do, parsed, create_key,
  create_server,
}
use foxplay_game.Client.Create.{
  Form, SavedKey, KeyForm, is_falsy, new_key, key_input, server_input, save_new, resolve_public_key,
  after_create, after_parse, after_resolve, handle_create, after_save, save_parsed, handle_save,
}
use foxplay_game.Client.Create.Accepted.{
  parse_ssh_key_create-IsGoodKey, parse_instance_create-IsGoodServer, IsGoodKey-parsed,
  IsGoodServer-parsed,
}

-- A request that creates a key or a server, with a body that the route parses.
pub data IsAccepted (zod : String → Option Json → String) : Request → Type 0 where
  key :
      (d : SshKeyCreate)
      → parse_ssh_key_create zod (key_body d) ≡ success d
      → IsAccepted zod (post_json "/api/ssh-keys" (key_body d))
  server :
      (d : InstanceCreate)
      → parse_instance_create zod (instance_body d) ≡ success d
      → IsAccepted zod (post_json "/api/instances" (instance_body d))

module _ {S : Type 0} (zod : String → Option Json → String) (text_of : Json → String)
    (parse : String → Option Json) (fetch : Request → S → Fetched × S) (encode : String → String)
    (P : S → Type 0)
    (kept : (req : Request) (s : S) → IsAccepted zod req → P s → P (fetch req s).1) where
  checked-keeps :
      (what : String) (a : Fetched × S) → P a.1 → P (checked text_of parse fetch encode what a).1
  checked-keeps what (rejected e, s) h = h
  checked-keeps what (answered status text, s) h = h

  then_do-keeps : (r : Res String × S) → P r.1 → P (then_do r (parsed text_of parse fetch encode)).1
  then_do-keeps (ok a, s) h = h
  then_do-keeps (thrown e, s) h = h

  create_key-keeps :
      (d : SshKeyCreate) (s : S)
      → parse_ssh_key_create zod (key_body d) ≡ success d
      → P s
      → P (create_key text_of parse fetch encode d s).1
  unfolding create_key
  create_key-keeps d s e h =
      let req = post_json "/api/ssh-keys" (key_body d) in
      then_do-keeps (send text_of parse fetch encode "create failed" req s)
        (checked-keeps "create failed" (fetch req s) (kept req s (IsAccepted.key d e) h))

  create_server-keeps :
      (d : InstanceCreate) (s : S)
      → parse_instance_create zod (instance_body d) ≡ success d
      → P s
      → P (create_server text_of parse fetch encode d s).1
  unfolding create_server
  create_server-keeps d s e h =
      let req = post_json "/api/instances" (instance_body d) in
      then_do-keeps (send text_of parse fetch encode "create failed" req s)
        (checked-keeps "create failed" (fetch req s) (kept req s (IsAccepted.server d e) h))

  save_new-keeps :
      (v : Json) (r : Parsed SshKeyCreate) (s : S)
      → parse_ssh_key_create zod v ≡ r
      → P s
      → P (save_new zod text_of parse fetch encode r s).1
  save_new-keeps v (failure message) s e h = h
  save_new-keeps v (success d) s e h =
      create_key-keeps d s (IsGoodKey-parsed zod d (parse_ssh_key_create-IsGoodKey zod v d e)) h

  resolve_public_key-keeps :
      (form : Form) (keys : List SavedKey) (s : S)
      → P s
      → P (resolve_public_key zod text_of parse fetch encode form keys s).1
  unfolding resolve_public_key
  resolve_public_key-keeps form keys s h = elim (Bool-cases (str_eq form.key_choice new_key)) [
    | inl e ↦ rw e (save_new-keeps (key_input form.new_key_name form.new_key_text) _ s refl h)
    | inr e ↦ rw e h
  ]

  after_create-keeps :
      (name : String) (toasts : _) (r : Res Json × S)
      → P r.1
      → P (after_create zod text_of parse fetch encode name toasts r).1
  after_create-keeps name toasts (ok v, s) h = h
  after_create-keeps name toasts (thrown e, s) h = h

  after_parse-keeps :
      (toasts : _) (v : Json) (r : Parsed InstanceCreate) (s : S)
      → parse_instance_create zod v ≡ r
      → P s
      → P (after_parse zod text_of parse fetch encode toasts r s).1
  after_parse-keeps toasts v (failure message) s e h = h
  after_parse-keeps toasts v (success d) s e h =
      after_create-keeps d.name toasts (create_server text_of parse fetch encode d s) (
        create_server-keeps d s
          (IsGoodServer-parsed zod d (parse_instance_create-IsGoodServer zod v d e)) h)

  after_resolve-keeps :
      (form : Form) (r : (Option Json × _) × S)
      → P r.1
      → P (after_resolve zod text_of parse fetch encode form r).1
  after_resolve-keeps form ((k, toasts), s) h = elim (Bool-cases (is_falsy k)) [
    | inl e ↦ rw e h
    | inr e ↦ rw e (after_parse-keeps toasts (server_input form k) _ s refl h)
  ]

  after_save-keeps :
      (form : KeyForm) (name : String) (r : Res Json × S)
      → P r.1
      → P (after_save zod text_of parse fetch encode form name r).1
  after_save-keeps form name (ok v, s) h = h
  after_save-keeps form name (thrown e, s) h = h

  save_parsed-keeps :
      (form : KeyForm) (v : Json) (r : Parsed SshKeyCreate) (s : S)
      → parse_ssh_key_create zod v ≡ r
      → P s
      → P (save_parsed zod text_of parse fetch encode form r s).1
  save_parsed-keeps form v (failure message) s e h = h
  save_parsed-keeps form v (success d) s e h =
      after_save-keeps form d.name (create_key text_of parse fetch encode d s)
        (create_key-keeps d s (IsGoodKey-parsed zod d (parse_ssh_key_create-IsGoodKey zod v d e)) h)

  -- A property of the state of what answers that is kept by every request which creates a key or a
  -- server with a body that the route itself parses to the same data, is kept by both forms: they send
  -- nothing else, whatever is written into their fields.
  pub forms-keep :
      (form : Form) (keys : List SavedKey) (key_form : KeyForm) (s : S)
      → P s
      → P (handle_create zod text_of parse fetch encode form keys s).1
        × P (handle_save zod text_of parse fetch encode key_form s).1
  unfolding handle_create handle_save
  forms-keep form keys key_form s h = (
    after_resolve-keeps form (resolve_public_key zod text_of parse fetch encode form keys s)
        (resolve_public_key-keeps form keys s h),
    save_parsed-keeps key_form (key_input key_form.name key_form.text) _ s refl h,
  )
