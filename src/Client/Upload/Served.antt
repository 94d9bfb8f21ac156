-- ===== src/Client/Upload/Served.antt =====
-- The form of frontend/features/functions/components/UploadForm.tsx, in front of the routes of
-- frontend/app/api/functions.
use mathlib.Core.Path.{subst}
use foxplay_game.Common.{
  ℕ, String, Bool, true, false, ◌&&◌, ◌≡◌, ◌⊎◌, refl, sym, ap, ◌∙◌, arith, [], ◌∷◌, Option, none,
  some, str_eq, template, All, if◌then◌else◌,
}
use foxplay_game.Json.{Json, null, str, obj, field, end, get}
use foxplay_game.Models.{success, is_function_id}
use foxplay_game.Server.{
  World, Thrown, Res, ok, thrown, Response, Body, error, payload, reply, Fetched, rejected,
  answered, is_ok_status,
}
use foxplay_game.Server.Manager.{FetchRequest}
use foxplay_game.Registry.{retire_rows}
use foxplay_game.Registry.Functions.{
  functions, new_function, register_function, delete_function, store_request,
}
use foxplay_game.Client.Hooks.{
  Request, check_reply, checked, then_do, parsed, member_of, register_function as post_name,
  unregister_function,
}
use foxplay_game.Models.Schemas.{success-inj}
use foxplay_game.Client.Upload.{File, UploadForm, Upload, parse_upload, roll_back, handle_upload}
use foxplay_game.Client.Upload.Saga.{IsRegistrar, IsCleared, IsKept, handle_upload-Ends}
use foxplay_game.Client.Upload.Routed.{
  IsNameFree, named_json, Calm, added, refused, register_function-Calm, delete_function-calm,
  retire_rows-new,
}

abbrev body_of : Option Json → Json
body_of none = null
body_of (some v) = v

abbrev body_json : {A : Type 0} → (A → Json) → Body A → Json
body_json f (error message) = obj (field "error" (str message) end)
body_json f (payload a) = f a

-- What an answer is on the wire.
abbrev pub answer_with :
    {A T : Type 0} → (Json → String) → (A → Json) → Res (Response A) × World T → Fetched × World T
answer_with stringify f (thrown e, w) = (answered 500 "", w)
answer_with stringify f (ok r, w) = (answered r.status (stringify (body_json f r.body)), w)

-- The server, as far as the form uses it. `id_in` is the router's, which takes the id out of a path.
abbrev pub served :
    {T : Type 0}
    → (String → Option Json → String)
    → (Json → String)
    → (String → Option Json)
    → (String → String)
    → (FetchRequest → T → Fetched × T)
    → (String → String)
    → String
    → ℕ
    → Request
    → World T
    → Fetched × World T
served zod stringify parse encode store id_in fresh now req w =
    if str_eq req.method "POST"
    then answer_with stringify named_json (register_function zod fresh now (body_of req.body) w)
    else answer_with stringify (λ u. obj end)
        (delete_function store parse encode (id_in req.path) now w)

abbrev is_ok : {A B : Type 0} → Res A × B → Bool
is_ok (ok a, b) = true
is_ok (thrown e, b) = false

abbrev value_or : {A B : Type 0} → A → Res A × B → A
value_or a (ok b, s) = b
value_or a (thrown e, s) = a

module _ {T : Type 0} (zod : String → Option Json → String) (stringify text_of : Json → String)
    (parse : String → Option Json) (encode : String → String)
    (store : FetchRequest → T → Fetched × T) (id_in : String → String) (fresh : String) (now : ℕ)
    (reads : (name : String)
      → parse (stringify (named_json (fresh, name))) ≡ some (named_json (fresh, name)))
    (nonempty : str_eq fresh "" ≡ false) where
  abbrev fetch : Request → World T → Fetched × World T
  fetch = served zod stringify parse encode store id_in fresh now

  -- what the form has of a registration
  abbrev posted : Res (Response (String × String)) × World T → Res Json × World T
  posted run =
      then_do
        (checked text_of parse fetch encode "register failed"
          (answer_with stringify named_json run))
        (parsed text_of parse fetch encode)

  posted-added :
      (other : String) (w : World T)
      → posted (ok (reply 201 (fresh, other)), w) ≡ (ok (named_json (fresh, other)), w)
  unfolding check_reply
  posted-added other w = rw (reads other) refl

  posted-refused :
      (r : Response (String × String)) (w : World T)
      → is_ok_status r.status ≡ false
      → (e : Thrown) × (posted (ok r, w) ≡ (thrown e, w))
  unfolding check_reply
  posted-refused r w bad = rw bad (_, refl)

  posted-failed :
      (name : String) (w w' s : World T) (r : Response (String × String)) (e : Thrown)
      → Calm fresh now w w' r
      → posted (ok r, w') ≡ (thrown e, s)
      → IsNameFree name w
      → IsNameFree name s
  unfolding check_reply
  posted-failed name w w' s r e (added other q rows calm) p free =
      let wrong : true ≡ false =
        ap is_ok (sym (posted-added other w') ∙ ap (λ r. posted (ok r, w')) (sym q) ∙ p) in
      absurd (ground arith)
  posted-failed name w w' s r e (refused bad rows calm) p free =
      let (f, k) = posted-refused r w' bad in
      subst (IsNameFree name) (ap (λ x. x.1) (sym k ∙ p)) (
        calm,
        subst (All (λ r. (functions.is_live r && str_eq r.name name) ≡ false)) (sym rows) free.1,
      )

  posted-named :
      (w w' s : World T) (r : Response (String × String)) (v : Json)
      → Calm fresh now w w' r
      → posted (ok r, w') ≡ (ok v, s)
      → (member_of "id" v ≡ ok (some (str fresh)))
        × (s ≡ w')
        × ((name : String) × (w'.functions ≡ new_function fresh now name ∷ w.functions))
        × (w'.faults ≡ [])
  unfolding check_reply get
  posted-named w w' s r v (added other q rows calm) p =
      let both : (ok (named_json (fresh, other)), w') ≡ (ok v, s) =
        sym (posted-added other w') ∙ ap (λ r. posted (ok r, w')) (sym q) ∙ p in
      (
        subst (λ v. member_of "id" v ≡ ok (some (str fresh))) (ap (value_or v) both) refl,
        sym (ap (λ x. x.1) both),
        (other, rows),
        calm,
      )
  posted-named w w' s r v (refused bad rows calm) p =
      let (f, k) = posted-refused r w' bad in
      let wrong : false ≡ true = ap is_ok (sym k ∙ p) in absurd (ground arith)

  checked-state :
      (what : String) (a : Fetched × World T) → (checked text_of parse fetch encode what a).1 ≡ a.1
  checked-state what (rejected e, w) = refl
  checked-state what (answered status text, w) = refl

  answer_with-state :
      {A : Type 0} (f : A → Json) (run : Res (Response A) × World T)
      → (answer_with stringify f run).1 ≡ run.1
  answer_with-state f (ok r, w) = refl
  answer_with-state f (thrown e, w) = refl

  module _ (deploy : String → File → Bool → World T → Fetched × World T)
      (apart : (id : String) (file : File) (snapshot : Bool) (w : World T)
        → ((deploy id file snapshot w).1.functions ≡ w.functions)
          × ((deploy id file snapshot w).1.faults ≡ w.faults))
      (routed : id_in (template ("/api/functions/" ∷ encode fresh ∷ [])) ≡ fresh)
      (is_id : is_function_id fresh ≡ true)
      (deletes : (t : T)
        → (store (store_request store parse encode fresh) t).0 ≡ answered 200 "") where
    rolled_back :
        (name other : String) (w w' : World T)
        → w'.functions ≡ new_function fresh now other ∷ w.functions
        → w'.faults ≡ []
        → IsNameFree name w
        → IsNameFree name (roll_back text_of parse fetch encode deploy fresh w')
    unfolding unregister_function
    rolled_back name other w w' rows calm free =
        let run = delete_function store parse encode fresh now w' in
        let (gone, still) =
          delete_function-calm fresh now w' calm store parse encode is_id (deletes w'.remote) in
        let state : roll_back text_of parse fetch encode deploy fresh w' ≡ run.1 =
          checked-state "delete failed" _
          ∙ answer_with-state (λ u. obj end) _
          ∙ ap (λ id. (delete_function store parse encode id now w').1) routed in
        subst (IsNameFree name) (sym state) (
          still,
          subst (All _) (sym (gone ∙ ap (retire_rows functions fresh now) rows))
              (retire_rows-new fresh now name other w.functions free.1),
        )

    served-IsRegistrar :
        (u : Upload) → IsRegistrar text_of parse fetch encode deploy (IsNameFree u.name) u
    unfolding post_name
    served-IsRegistrar u =
        let body = obj (field "name" (str u.name) end) in
        record {
          failed = λ s s' e p free.
              let (q, ran, c) = register_function-Calm fresh now s free.0 zod body in
              let run = register_function zod fresh now body s in
              posted-failed u.name s run.1 s' q e c (ap (λ x. posted (x, run.1)) (sym ran) ∙ p)
                free;
          named = λ s s' v p free.
              let (q, ran, c) = register_function-Calm fresh now s free.0 zod body in
              let run = register_function zod fresh now body s in
              let (id, same, (other, rows), calm) =
                posted-named s run.1 s' q v c (ap (λ x. posted (x, run.1)) (sym ran) ∙ p) in
              let d = (deploy fresh u.file u.snapshot s').1 in
              let (rows_kept, faults_kept) = apart fresh u.file u.snapshot s' in
              (
                str fresh,
                id,
                nonempty,
                rolled_back u.name other s d (rows_kept ∙ ap (λ w. w.functions) same ∙ rows)
                    (faults_kept ∙ ap (λ w. w.faults) same ∙ calm) free,
              );
        }

    -- The form, in front of the routes that register and delete a function, and they in front of the
    -- artifact store. Where the database executes its statements, the store deletes what it is asked to
    -- delete, a deployment touches neither the registry nor the database, the route's JSON is read back
    -- and its id is well-formed: if no live function has the name, then a deployment either clears the
    -- name and the file, keeps the choice of a snapshot, adds a toast of a success on top of the others and
    -- tells the page once; or it leaves the name, the file and the choice as they were and does not tell
    -- the page, adds a toast of an error on top of the others, and again no live function has the name.
    -- The form is not uploading any more.
    pub handle_upload-IsNameFree :
        (f : UploadForm) (u : Upload) (w : World T)
        → parse_upload f ≡ success u
        → f.uploading ≡ false
        → IsNameFree u.name w
        → let r = handle_upload text_of parse fetch encode deploy f w in
          (IsCleared f r.0 ⊎ (IsKept f r.0 × IsNameFree u.name r.1)) × (r.0.uploading ≡ false)
    handle_upload-IsNameFree f u w good idle free =
        handle_upload-Ends text_of parse fetch encode deploy (IsNameFree u.name) f w
          (λ v e.
            subst (IsRegistrar text_of parse fetch encode deploy (IsNameFree u.name))
              (success-inj (sym good ∙ e)) (served-IsRegistrar u))
          idle free
