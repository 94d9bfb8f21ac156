-- ===== src/Client/Inputs.antt =====
-- The inputs of the form in frontend/features/functions/components/UploadForm.tsx with its
-- FileDropzone.tsx, and frontend/features/functions/components/PayloadEditor.tsx. `parse` is
-- `JSON.parse`, and `syntax_error` the message of the error that it throws.
pub mod Chosen
use foxplay_game.Common.{
  String, Bool, true, false, List, [], ◌∷◌, Option, none, some, str_eq, template, if◌then◌else◌,
}
use foxplay_game.Json.{Json}
use foxplay_game.Client.Upload.{File, UploadForm, select_file}
use foxplay_game.Client.Function.{FunctionPage}

-- the form, and whether a file is dragged over the zone
pub record Zone : Type 0 where
  pub form : UploadForm
  pub drag_active : Bool

-- What the user does. A drag that leaves for an element `inside` of the zone is still over it; a drop
-- and a choice in the dialog come with files.
pub data Input : Type 0 where
  typed : String → Input
  snapshot_set : Bool → Input
  dragged_over : Input
  drag_left : Bool → Input
  dropped : List File → Input
  picked : List File → Input

-- `files?.[0]`
abbrev pub first_file : List File → Option File
first_file [] = none
first_file (f ∷ files) = some f

-- `onSelect` is the form's `selectFile`
unfoldable pub apply : Input → Zone → Zone
unfolding select_file
apply (typed name) z = record z { form = record z.form { name = name } }
apply (snapshot_set on) z = record z { form = record z.form { snapshot = on } }
apply dragged_over z = record z { drag_active = true }
apply (drag_left inside) z = if inside then z else record z { drag_active = false }
apply (dropped files) z = record z {
  drag_active = false;
  form = select_file (first_file files) z.form;
}
apply (picked files) z = record z { form = select_file (first_file files) z.form }

unfoldable pub apply_all : List Input → Zone → Zone
unfolding apply
apply_all [] z = z
apply_all (i ∷ inputs) z = apply_all inputs (apply i z)

-- the text below the payload, and whether its border is red
pub record Verdict : Type 0 where
  pub note : String
  pub is_red : Bool

module _ (parse : String → Option Json) (syntax_error : String → String) where
  abbrev pub payload_error : String → Option String
  payload_error value = elim (parse value) [ none ↦ some (syntax_error value) | some v ↦ none ]

  abbrev valid : Verdict
  valid = record { note = "✓ Valid JSON"; is_red = false }

  -- an empty message is falsy
  abbrev pub verdict_of : Option String → Verdict
  verdict_of none = valid
  verdict_of (some message) =
      if str_eq message ""
      then valid
      else record { note = template ("⚠ " ∷ message ∷ []); is_red = true }

  unfoldable pub payload_verdict : String → Verdict
  payload_verdict value = verdict_of (payload_error value)

-- "Reset to default"
abbrev pub reset_payload : String → FunctionPage → FunctionPage
reset_payload default_payload p = record p { payload = default_payload }
