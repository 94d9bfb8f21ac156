-- ===== src/Client/Tests/Forms.antt =====
-- Tests and examples for the forms and for the event of an invocation.
use foxplay_game.Common.{
  ◌⊎◌, Bool, String, true, false, List, [], ◌∷◌, map, Option, some, ◌≡◌, refl, All,
}
use foxplay_game.Server.{World, Fetched, answered}
use foxplay_game.Json.{Json, obj, str, num, arr, cons, nil, field, end, Fields}
use foxplay_game.Client.Events.{normal_fields}
use foxplay_game.Client.Hooks.{Request}
use foxplay_game.Client.Create.{Form, handle_create, handle_save}
use foxplay_game.Client.Create.Sent.{IsAccepted, forms-keep}
use foxplay_game.Client.Upload.{File, UploadForm, handle_upload, is_archive_name}
use foxplay_game.Models.{is_prefixed_id}
use foxplay_game.Server.Manager.{FetchRequest}
use foxplay_game.Client.Upload.Routed.{IsNameFree, named_json}
use foxplay_game.Client.Upload.Served.{served, handle_upload-IsNameFree}
use foxplay_game.Client.Upload.{parse_upload}
use foxplay_game.Client.Upload.Saga.{IsCleared, IsKept}

abbrev zod : String → Option Json → String
zod key v = "Invalid input"

abbrev parse : String → Option Json
parse text = some (obj (field "public_key" (str "ssh-rsa AAAA b") end))

abbrev text_of : Json → String
text_of v = "[object Object]"

-- a service that takes every request and keeps them
abbrev record_all : Request → List Request → Fetched × List Request
record_all req sent = (answered 201 "{}", req ∷ sent)

abbrev encode : String → String
encode id = id

abbrev form : Form
form = record {
  name = " srv-1 ";
  image = "alpine";
  key_choice = "__new__";
  new_key_name = "laptop";
  new_key_text = "ssh-rsa AAAA b\n";
}

abbrev AreAccepted : List Request → Type 0
AreAccepted = All (IsAccepted zod)

forms-keep_example :
    AreAccepted (handle_create zod text_of parse record_all encode form [] []).1
    × AreAccepted
        (handle_save zod text_of parse record_all encode (record { name = "x"; text = "y" }) []).1
forms-keep_example =
    forms-keep zod text_of parse record_all encode AreAccepted (λ req s a h. (a, h)) form []
      (record { name = "x"; text = "y" }) [] tt

two_requests :
    map (λ r. r.path) (handle_create zod text_of parse record_all encode form [] []).1
    ≡ "/api/instances" ∷ "/api/ssh-keys" ∷ []
unfolding handle_create foxplay_game.Models.is_function_name foxplay_game.Models.is_ssh_public_key
    foxplay_game.Models.is_base_image
two_requests = refl

archive_names : (is_archive_name "code.TAR.gz" ≡ true) × (is_archive_name "code.tgz.zip" ≡ false)
unfolding is_archive_name
archive_names = (refl, refl)

-- an artifact store that deletes and takes nothing
abbrev delete_all : FetchRequest → Unit {0} → Fetched × Unit {0}
delete_all req t = (answered 200 "", t)

abbrev refuse : String → File → Bool → World (Unit {0}) → Fetched × World (Unit {0})
refuse _ file snapshot w = (answered 500 "no space", w)

abbrev upload_form : UploadForm
upload_form = record {
  name = "hello";
  file = some (record { name = "code.tgz"; bytes = [] });
  snapshot = true;
  uploading = false;
  toasts = [];
  deployed = 0;
}

abbrev fresh : String
fresh = "fn-b8965196-1caf-4d21-b4f0-6bdc5f6a617e"

-- the one text that the form reads
abbrev stringify_name : Json → String
stringify_name (obj (field i v (field j (str name) fs))) = name
stringify_name v = ""

abbrev parse_name : String → Option Json
parse_name text = some (named_json (fresh, text))

abbrev id_in : String → String
id_in path = fresh

abbrev no_functions : World (Unit {0})
no_functions = record { instances = []; functions = []; ssh_keys = []; faults = []; remote = tt }

abbrev server : Request → World (Unit {0}) → Fetched × World (Unit {0})
server = served zod stringify_name parse_name encode delete_all id_in fresh 5

abbrev deployed : UploadForm × World (Unit {0})
deployed = handle_upload text_of parse_name server encode refuse upload_form no_functions

handle_upload-IsNameFree_example :
    (IsCleared upload_form deployed.0
      ⊎ (IsKept upload_form deployed.0 × IsNameFree "hello" deployed.1))
    × (deployed.0.uploading ≡ false)
unfolding is_prefixed_id parse_upload
handle_upload-IsNameFree_example =
    handle_upload-IsNameFree zod stringify_name text_of parse_name encode delete_all id_in fresh 5
      (λ name. refl) refl refuse (λ id file snapshot w. (refl, refl)) refl refl (λ t. refl)
      upload_form
      (record { name = "hello"; file = record { name = "code.tgz"; bytes = [] }; snapshot = true })
      no_functions refl refl (refl, tt)

-- the row is there, and retired
left_behind : map (λ r. r.deleted_at) deployed.1.functions ≡ some 5 ∷ []
unfolding handle_upload foxplay_game.Registry.Functions.register_function
    foxplay_game.Registry.Functions.delete_function is_prefixed_id
left_behind = refl

abbrev event : Fields
event = field "body" (obj end) (
    field "headers" (obj (field "Accept" (str "*/*") (field "X" (arr (cons (num "1") nil)) end)))
      end)

normal_event :
    normal_fields text_of event
    ≡ field "body" (str "[object Object]") (
        field "headers"
          (obj (
            field "Accept" (arr (cons (str "*/*") nil)) (field "X" (arr (cons (str "1") nil)) end)))
          end)
unfolding normal_fields
normal_event = refl
