-- ===== src/Client/Upload/Saga.antt =====
-- The roll-back of frontend/features/functions/components/UploadForm.tsx, in front of any services.
use foxplay_game.Common.{
  ◌+◌, String, Bool, true, false, ◌≡◌, ◌⊎◌, refl, inl, inr, List, ◌∷◌, Option, none, some,
  Bool-cases,
}
use foxplay_game.Json.{Json}
use foxplay_game.Models.{Parsed, success, failure}
use foxplay_game.Server.{Thrown, Res, ok, thrown, Fetched, rejected, answered, is_ok_status}
use foxplay_game.Client.Hooks.{Request, string_of, member_of, register_function}
use foxplay_game.Client.Create.{is_falsy}
use foxplay_game.Client.Toasts.{Toast, ToastKind, bad, good}
use foxplay_game.Client.Upload.{
  File, UploadForm, Upload, parse_upload, roll_back, after_deploy, deploy_as, id_of, done,
  upload_parsed, handle_upload,
}

-- One more toast, of a kind, on top of those that were there.
abbrev pub IsTold : ToastKind → List Toast → List Toast → Type 0
IsTold kind before after = (t : Toast) × (t.kind ≡ kind) × (after ≡ t ∷ before)

-- What a deployment that failed leaves of the form: all of it, with one more toast, of an error.
pub record IsKept (f g : UploadForm) : Type 0 where
  pub name : g.name ≡ f.name
  pub file : g.file ≡ f.file
  pub snapshot : g.snapshot ≡ f.snapshot
  pub deployed : g.deployed ≡ f.deployed
  pub told : IsTold bad f.toasts g.toasts

-- What a deployment that went well leaves: no name and no file, one more toast, of a success, and the
-- page is told.
pub record IsCleared (f g : UploadForm) : Type 0 where
  pub name : g.name ≡ ""
  pub file : g.file ≡ none
  pub snapshot : g.snapshot ≡ f.snapshot
  pub deployed : g.deployed ≡ f.deployed + 1
  pub told : IsTold good f.toasts g.toasts

module _ {S : Type 0} (text_of : Json → String) (parse : String → Option Json)
    (fetch : Request → S → Fetched × S) (encode : String → String)
    (deploy : String → File → Bool → S → Fetched × S) where
  -- What the services promise of `IsFree`, which says that the name `u.name` is not taken: a
  -- registration that fails does not take it, one that goes well gives an id, and to delete that id
  -- frees the name again, whatever the artifact store did with it.
  pub record IsRegistrar (IsFree : S → Type 0) (u : Upload) : Type 0 where
    pub failed :
        (s s' : S) (e : Thrown)
        → register_function text_of parse fetch encode u.name s ≡ (thrown e, s')
        → IsFree s
        → IsFree s'
    pub named :
        (s s' : S) (v : Json)
        → register_function text_of parse fetch encode u.name s ≡ (ok v, s')
        → IsFree s
        → (id : Json) × (member_of "id" v ≡ ok (some id))
          × (is_falsy (some id) ≡ false)
          × IsFree (
              roll_back text_of parse fetch encode deploy
                (string_of text_of parse id)
                (deploy (string_of text_of parse id) u.file u.snapshot s').1)

  -- The two ends of a deployment.
  abbrev Ends : (S → Type 0) → UploadForm → UploadForm × S → Type 0
  Ends IsFree f (g, s) = (IsCleared f g ⊎ (IsKept f g × IsFree s)) × (g.uploading ≡ false)

  module _ (IsFree : S → Type 0) (f : UploadForm) where
    after_deploy-Ends :
        (u : Upload) (id : Json) (a : Fetched × S)
        → is_falsy (some id) ≡ false
        → IsFree (roll_back text_of parse fetch encode deploy (string_of text_of parse id) a.1)
        → Ends IsFree f (
            done text_of parse fetch encode deploy (
              after_deploy text_of parse fetch encode deploy u
                (some id)
                (record f { uploading = true })
                a))
    after_deploy-Ends u id (rejected e, s) truthy h = rw truthy (
      inr (
        record {
          name = refl;
          file = refl;
          snapshot = refl;
          deployed = refl;
          told = (_, refl, refl);
        },
        h,
      ),
      refl,
    )
    after_deploy-Ends u id (answered status text, s) truthy h =
        elim (Bool-cases (is_ok_status status)) [
          | inl e ↦ rw e (
            inl (record {
              name = refl;
              file = refl;
              snapshot = refl;
              deployed = refl;
              told = (_, refl, refl);
            }),
            refl,
          )
          | inr e ↦ rw e (
            inr (
              record {
                name = refl;
                file = refl;
                snapshot = refl;
                deployed = refl;
                told = (_, refl, refl);
              },
              h,
            ),
            refl,
          )
        ]

    registered-Ends :
        (u : Upload) (s : S) (r : Res Json × S)
        → IsRegistrar IsFree u
        → register_function text_of parse fetch encode u.name s ≡ r
        → IsFree s
        → Ends IsFree f (
            done text_of parse fetch encode deploy (
              deploy_as text_of parse fetch encode deploy u
                (record f { uploading = true })
                (id_of text_of parse fetch encode deploy r.0)
                r.1))
    registered-Ends u s (thrown e, s') laws q free = (
      inr (
        record {
          name = refl;
          file = refl;
          snapshot = refl;
          deployed = refl;
          told = (_, refl, refl);
        },
        laws.failed s s' e q free,
      ),
      refl,
    )
    registered-Ends u s (ok v, s') laws q free =
        let (id, found, truthy, freed) = laws.named s s' v q free in
        rw found (
          after_deploy-Ends u id (deploy (string_of text_of parse id) u.file u.snapshot s') truthy
            freed)

    upload_parsed-Ends :
        (p : Parsed Upload) (s : S)
        → parse_upload f ≡ p
        → ((u : Upload) → parse_upload f ≡ success u → IsRegistrar IsFree u)
        → f.uploading ≡ false
        → IsFree s
        → Ends IsFree f (upload_parsed text_of parse fetch encode deploy f p s)
    upload_parsed-Ends (failure message) s q laws idle free = (
      inr (
        record {
          name = refl;
          file = refl;
          snapshot = refl;
          deployed = refl;
          told = (_, refl, refl);
        },
        free,
      ),
      idle,
    )
    upload_parsed-Ends (success u) s q laws idle free =
        registered-Ends u s (register_function text_of parse fetch encode u.name s) (laws u q) refl
          free

    -- A deployment either clears the name and the file, adds a toast of a success and tells the page once, or
    -- leaves the form as it was with one more toast, of an error, on top; and in the second case the name is free again, whichever step failed,
    -- where the services keep what they promise of it. The form is not uploading any more.
    pub handle_upload-Ends :
        (s : S)
        → ((u : Upload) → parse_upload f ≡ success u → IsRegistrar IsFree u)
        → f.uploading ≡ false
        → IsFree s
        → let r = handle_upload text_of parse fetch encode deploy f s in
          (IsCleared f r.0 ⊎ (IsKept f r.0 × IsFree r.1)) × (r.0.uploading ≡ false)
    unfolding handle_upload
    handle_upload-Ends s laws idle free = upload_parsed-Ends (parse_upload f) s refl laws idle free
