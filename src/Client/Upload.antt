-- ===== src/Client/Upload.antt =====
-- frontend/features/functions/components/UploadForm.tsx, with `uploadFormSchema` of
-- frontend/lib/models.ts. `deploy` is the request that sends the file to the artifact store under an
-- id; the clock of the toasts is left out.
pub mod Saga
pub mod Served
pub mod Routed
use foxplay_game.Common.{
  ℕ, ◌+◌, String, Bool, true, false, ◌&&◌, ◌||◌, List, [], ◌∷◌, Option, none, some, codes, template,
  leb, ◌==◌, if◌then◌else◌,
}
use foxplay_game.Json.{Json, get}
use foxplay_game.Models.{Parsed, success, failure, is_function_name}
use foxplay_game.Registry.Keys.{trim}
use foxplay_game.Server.{Res, ok, thrown, Fetched, rejected, answered, is_ok_status}
use foxplay_game.Client.Hooks.{
  Request, string_of, member_of, register_function, unregister_function,
}
use foxplay_game.Client.Create.{is_falsy}
use foxplay_game.Client.Toasts.{Toast, success_toast, error_toast}

pub record File : Type 0 where
  pub name : String
  pub bytes : List ℕ

abbrev to_lower : ℕ → ℕ
to_lower c = if leb b'A' c && leb c b'Z' then c + 32 else c

abbrev same_codes : List ℕ → List ℕ → Bool
same_codes [] [] = true
same_codes [] (d ∷ ds) = false
same_codes (c ∷ cs) [] = false
same_codes (c ∷ cs) (d ∷ ds) = to_lower c == d && same_codes cs ds

-- the text ends as `word` does, in either case
unfoldable pub ends_with : List ℕ → List ℕ → Bool
ends_with word [] = same_codes [] word
ends_with word (c ∷ cs) = same_codes (c ∷ cs) word || ends_with word cs

-- `/\.(tar\.gz|tgz)$/i`
unfoldable pub is_archive_name : String → Bool
unfolding ends_with
is_archive_name name =
    ends_with (codes ".tar.gz") (codes name) || ends_with (codes ".tgz") (codes name)

-- the form, and what its handlers leave; the latest toast stands first
pub record UploadForm : Type 0 where
  pub name : String
  pub file : Option File
  pub snapshot : Bool
  pub uploading : Bool
  pub toasts : List Toast
  pub deployed : ℕ

abbrev pub with_error : String → String → UploadForm → UploadForm
with_error message description f = record f {
  toasts = error_toast message (some description) ∷ f.toasts;
}

-- `selectFile`
unfoldable pub select_file : Option File → UploadForm → UploadForm
unfolding is_archive_name
select_file none f = f
select_file (some file) f =
    if is_archive_name file.name
    then record f { file = some file }
    else with_error "Invalid file" "Please choose a .tar.gz or .tgz file" f

pub record Upload : Type 0 where
  pub name : String
  pub file : File
  pub snapshot : Bool

abbrev upload_file : Option File → Parsed File
upload_file none = failure "Choose a .tar.gz file to upload"
upload_file (some file) =
    if is_archive_name file.name
    then success file
    else failure "Please choose a .tar.gz or .tgz file"

abbrev with_file : String → Bool → Parsed File → Parsed Upload
with_file name snapshot (success file) =
    success (record { name = name; file = file; snapshot = snapshot })
with_file name snapshot (failure message) = failure message

-- `uploadFormSchema`: the first issue is the name's
unfoldable pub parse_upload : UploadForm → Parsed Upload
unfolding is_function_name is_archive_name trim
parse_upload f =
    let name = trim f.name in
    if is_function_name name
    then with_file name f.snapshot (upload_file f.file)
    else failure "Use lowercase letters, digits, and hyphens only"

abbrev pub failed_text : String → String
failed_text name = template ("Deploy " ∷ name ∷ " failed" ∷ [])

abbrev pub published : Upload → UploadForm → UploadForm
published u f = record f {
  name = "";
  file = none;
  deployed = f.deployed + 1;
  toasts =
      success_toast "Deployed" (some (template (u.name ∷ " is ready to invoke" ∷ []))) ∷ f.toasts;
}

module _ {S : Type 0} (text_of : Json → String) (parse : String → Option Json)
    (fetch : Request → S → Fetched × S) (encode : String → String)
    (deploy : String → File → Bool → S → Fetched × S) where
  -- the id in a path
  abbrev pub id_text : Option Json → String
  id_text none = "undefined"
  id_text (some v) = string_of text_of parse v

  -- `remove(functionId).catch(() => {})`
  abbrev pub roll_back : String → S → S
  roll_back id s = (unregister_function text_of parse fetch encode id s).1

  abbrev pub after_deploy : Upload → Option Json → UploadForm → Fetched × S → UploadForm × S
  after_deploy u id f (rejected e, s) = (
    with_error (failed_text u.name) e.message f,
    if is_falsy id then s else roll_back (id_text id) s,
  )
  after_deploy u id f (answered status text, s) =
      if is_ok_status status
      then (published u f, s)
      else (with_error (failed_text u.name) text f, roll_back (id_text id) s)

  abbrev pub deploy_as : Upload → UploadForm → Res (Option Json) → S → UploadForm × S
  deploy_as u f (thrown e) s = (with_error (failed_text u.name) e.message f, s)
  deploy_as u f (ok id) s = after_deploy u id f (deploy (id_text id) u.file u.snapshot s)

  -- `(await add(functionName)).id`
  abbrev pub id_of : Res Json → Res (Option Json)
  id_of (ok v) = member_of "id" v
  id_of (thrown e) = thrown e

  abbrev pub done : UploadForm × S → UploadForm × S
  done (f, s) = (record f { uploading = false }, s)

  abbrev pub upload_parsed : UploadForm → Parsed Upload → S → UploadForm × S
  upload_parsed f (failure message) s = (with_error "Invalid input" message f, s)
  upload_parsed f (success u) s =
      let (r, s') = register_function text_of parse fetch encode u.name s in
      done (deploy_as u (record f { uploading = true }) (id_of r) s')

  unfoldable pub handle_upload : UploadForm → S → UploadForm × S
  unfolding parse_upload register_function unregister_function get
  handle_upload f s = upload_parsed f (parse_upload f) s
