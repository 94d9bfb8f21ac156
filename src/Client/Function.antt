-- ===== src/Client/Function.antt =====
-- frontend/features/functions/components/FunctionDetailClient.tsx: the page that invokes and deletes a
-- function. `invoke_remote` is the request to the pool manager, and the clock of the toasts is left out.
pub mod Ended
use foxplay_game.Common.{
  ℕ, suc, String, Bool, true, false, List, [], ◌∷◌, Option, none, some, template, show,
  if◌then◌else◌,
}
use foxplay_game.Json.{Json, null, str, obj, get}
use foxplay_game.Server.{Res, ok, thrown, Fetched, rejected, answered, is_ok_status}
use foxplay_game.Client.Hooks.{Request, unregister_function, string_of}
use foxplay_game.Client.Events.{normalize_event}
use foxplay_game.Client.Toasts.{Toast, success_toast, error_toast}

-- the state of the page, with the latest toast first; `refreshes` counts the timers that will refetch the details
pub record FunctionPage : Type 0 where
  pub payload : String
  pub invoking : Bool
  pub deleting : Bool
  pub toasts : List Toast
  pub location : Option String
  pub refreshes : ℕ

abbrev pub told : Toast → FunctionPage → FunctionPage
told t p = record p { toasts = t ∷ p.toasts }

-- `detailQuery.data?.name ?? "…"`
abbrev pub name_or : Option String → String
name_or none = "…"
name_or (some name) = name

module _ {S : Type 0} (text_of : Json → String) (parse : String → Option Json)
    (fetch : Request → S → Fetched × S) (encode : String → String) where
  -- the page while the request is under way, and after it
  abbrev pub after_removal : String → FunctionPage → Res String × S → FunctionPage × S
  after_removal name p (ok text, s) =
      let q = told (success_toast "Deleted" (some (template (name ∷ " was removed" ∷ [])))) p in
      (record q { location = some "/functions" }, s)
  after_removal name p (thrown e, s) =
      let text = template ("Error: " ∷ e.message ∷ []) in
      let q = told (error_toast (template ("Delete " ∷ name ∷ " failed" ∷ [])) (some text)) p in
      (record q { deleting = false }, s)

  -- `confirmed` is the answer of `window.confirm`
  unfoldable pub handle_delete : Bool → String → String → FunctionPage → S → FunctionPage × S
  unfolding unregister_function
  handle_delete confirmed id name p s =
      if confirmed
      then after_removal name (record p { deleting = true })
          (unregister_function text_of parse fetch encode id s)
      else (p, s)

-- `rendered` is what a toast shows of a body that is no text, and `syntax_error` the text of the error
-- that `JSON.parse` throws
module _ {S : Type 0} (rendered : Json → String) (syntax_error : String → String)
    (parse : String → Option Json) (units : String → List String) (stringify : Json → String)
    (invoke_remote : String → String → S → Fetched × S) where
  -- `JSON.parse(text).body ?? text`, and the text where it is no JSON or null
  abbrev pub body_or : String → Option Json → Json
  body_or text (some (obj fs)) = elim (get "body" fs) [
    | none ↦ str text
    | some null ↦ str text
    | some v ↦ v
  ]
  body_or text v = str text

  abbrev pub failed_toast : String → String → Toast
  failed_toast name text = error_toast (template ("Invoke " ∷ name ∷ " failed" ∷ [])) (some text)

  abbrev pub after_invoke : String → FunctionPage → Fetched × S → FunctionPage × S
  after_invoke name p (rejected e, s) =
      (told (failed_toast name (template ("Error: " ∷ e.message ∷ []))) p, s)
  after_invoke name p (answered status text, s) =
      if is_ok_status status
      then (
        told
            (success_toast (template (name ∷ " → " ∷ show status ∷ []))
              (some (string_of rendered parse (body_or text (parse text)))))
            p,
        s,
      )
      else (told (failed_toast name text) p, s)

  -- `finally`
  abbrev pub invoked : FunctionPage × S → FunctionPage × S
  invoked (p, s) = (record p { invoking = false; refreshes = suc p.refreshes }, s)

  abbrev pub invoke_parsed : String → String → FunctionPage → Option Json → S → FunctionPage × S
  invoke_parsed id name p none s =
      let text = template ("Not valid JSON: " ∷ syntax_error p.payload ∷ []) in
      (told (error_toast "Invalid payload" (some text)) p, s)
  invoke_parsed id name p (some raw) s = invoked (
      after_invoke name (record p { invoking = true })
        (invoke_remote id (normalize_event units stringify raw) s))

  unfoldable pub invoke : String → String → FunctionPage → S → FunctionPage × S
  unfolding normalize_event show get
  invoke id name p s = invoke_parsed id name p (parse p.payload) s
