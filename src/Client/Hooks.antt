-- ===== src/Client/Hooks.antt =====
-- The requests of frontend/features/servers/hooks/useInstances.ts,
-- frontend/features/functions/hooks/useFunctions.ts and frontend/features/ssh-keys/hooks/useSshKeys.ts.
-- `fetch` is the browser's, on the state of what answers it, `parse` is `JSON.parse`, `encode` is
-- `encodeURIComponent`, and `text_of` is `String` of a value that is no text. What is refetched after
-- a success is left out.
use foxplay_game.Common.{ℕ, String, [], ◌∷◌, Option, none, some, template, show, if◌then◌else◌}
use foxplay_game.Json.{Json, null, str, obj, field, end, get}
use foxplay_game.Models.{InstanceCreate, SshKeyCreate}
use foxplay_game.Server.{Res, ok, thrown, Fetched, rejected, answered, is_ok_status}
use foxplay_game.Server.Manager.{new_error}
use foxplay_game.Client.Requests.{json_of}

-- the body is the value given to `JSON.stringify`
pub record Request : Type 0 where
  pub method : String
  pub path : String
  pub body : Option Json

-- `body?.error`, where `undefined` and `null` are `none`
abbrev pub error_member : Option Json → Option Json
error_member (some (obj fs)) = elim (get "error" fs) [
  | some null ↦ none
  | some v ↦ some v
  | none ↦ none
]
error_member _ = none

abbrev pub post_json : String → Json → Request
post_json path body = record { method = "POST"; path = path; body = some body }

abbrev pub key_body : SshKeyCreate → Json
key_body d = obj (field "name" (str d.name) (field "public_key" (str d.public_key) end))

abbrev pub instance_body : InstanceCreate → Json
instance_body d = obj (
    field "name" (str d.name)
      (field "base_image" (str d.base_image) (field "ssh_public_key" (str d.ssh_public_key) end)))

abbrev pub then_do : {S A B : Type 0} → Res A × S → (A → S → Res B × S) → Res B × S
then_do (ok a, s) next = next a s
then_do (thrown e, s) next = (thrown e, s)

-- a key of a parsed body; `null` has none
abbrev pub member_of : String → Json → Res (Option Json)
member_of key (obj fs) = ok (get key fs)
member_of key null = thrown (new_error "null has no properties")
member_of key v = ok none

module _ (text_of : Json → String) (parse : String → Option Json) where
  abbrev pub string_of : Json → String
  string_of (str s) = s
  string_of v = text_of v

  abbrev pub error_text : String → ℕ → Option Json → String
  error_text what status none = template (what ∷ ": " ∷ show status ∷ [])
  error_text what status (some v) = string_of v

  -- `if (!res.ok) throw new Error(body?.error ?? …)`
  unfoldable pub check_reply : String → ℕ → String → Res String
  unfolding get show
  check_reply what status text =
      if is_ok_status status
      then ok text
      else thrown (new_error (error_text what status (error_member (parse text))))

  module _ {S : Type 0} (fetch : Request → S → Fetched × S) (encode : String → String) where
    abbrev pub checked : String → Fetched × S → Res String × S
    checked what (rejected e, s) = (thrown e, s)
    checked what (answered status text, s) = (check_reply what status text, s)

    unfoldable pub send : String → Request → S → Res String × S
    unfolding check_reply
    send what req s = checked what (fetch req s)

    abbrev pub parsed : String → S → Res Json × S
    parsed text s = (json_of (parse text), s)

    unfoldable pub post : String → S → Res String × S
    unfolding send
    post url = send "request failed" (record { method = "POST"; path = url; body = none })

    unfoldable pub start_server : String → S → Res String × S
    unfolding post
    start_server id = post (template ("/api/instances/" ∷ encode id ∷ "/start" ∷ []))

    unfoldable pub stop_server : String → S → Res String × S
    unfolding post
    stop_server id = post (template ("/api/instances/" ∷ encode id ∷ "/stop" ∷ []))

    abbrev pub delete_request : String → Request
    delete_request path = record { method = "DELETE"; path = path; body = none }

    unfoldable pub remove_server : String → S → Res String × S
    unfolding send
    remove_server id =
        send "delete failed" (delete_request (template ("/api/instances/" ∷ encode id ∷ [])))

    unfoldable pub create_server : InstanceCreate → S → Res Json × S
    unfolding send
    create_server input s =
        then_do (send "create failed" (post_json "/api/instances" (instance_body input)) s) parsed

    unfoldable pub create_key : SshKeyCreate → S → Res Json × S
    unfolding send
    create_key input s =
        then_do (send "create failed" (post_json "/api/ssh-keys" (key_body input)) s) parsed

    unfoldable pub remove_key : String → S → Res String × S
    unfolding send
    remove_key id =
        send "delete failed" (delete_request (template ("/api/ssh-keys/" ∷ encode id ∷ [])))

    unfoldable pub register_function : String → S → Res Json × S
    unfolding send
    register_function name s =
        then_do
          (send "register failed" (post_json "/api/functions" (obj (field "name" (str name) end)))
            s)
          parsed

    unfoldable pub unregister_function : String → S → Res String × S
    unfolding send
    unregister_function id =
        send "delete failed" (delete_request (template ("/api/functions/" ∷ encode id ∷ [])))

    abbrev pub listed : String → String → Fetched × S → Res (Option Json) × S
    listed key message (rejected e, s) = (thrown e, s)
    listed key message (answered status text, s) =
        if is_ok_status status
        then then_do (parsed text s) (λ v s. (member_of key v, s))
        else (thrown (new_error message), s)

    -- `fetchInstances`, `fetchFunctions` and `fetchKeys`
    unfoldable pub fetch_list : String → String → String → S → Res (Option Json) × S
    unfolding get
    fetch_list path key message s =
        listed key message (fetch (record { method = "GET"; path = path; body = none }) s)

    abbrev pub fetch_instances : S → Res (Option Json) × S
    fetch_instances = fetch_list "/api/instances" "instances" "failed to load instances"

    abbrev pub fetch_functions : S → Res (Option Json) × S
    fetch_functions = fetch_list "/api/functions" "functions" "failed to load functions"

    abbrev pub fetch_keys : S → Res (Option Json) × S
    fetch_keys = fetch_list "/api/ssh-keys" "keys" "failed to load ssh keys"
