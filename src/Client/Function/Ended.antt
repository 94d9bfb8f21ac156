-- ===== src/Client/Function/Ended.antt =====
-- How an invocation and a deletion from frontend/features/functions/components/FunctionDetailClient.tsx
-- end.
use foxplay_game.Common.{
  suc, String, Bool, true, false, ◌≡◌, refl, ◌⊎◌, inl, inr, List, ◌∷◌, Option, none, some,
  Bool-cases,
}
use foxplay_game.Json.{Json}
use foxplay_game.Server.{Fetched, rejected, answered, is_ok_status}
use foxplay_game.Client.Events.{normalize_event}
use foxplay_game.Client.Toasts.{Toast, ToastKind, good, bad}
use foxplay_game.Client.Function.{FunctionPage, told, invoke, invoke_parsed, after_invoke, invoked}

-- the answer is one that `res.ok` holds of
abbrev pub is_success : Fetched → Bool
is_success (rejected e) = false
is_success (answered status text) = is_ok_status status

-- the kind of toast that tells of it
abbrev pub kind_for : Bool → ToastKind
kind_for true = good
kind_for false = bad

-- What differs between the page before and after: one toast in front, and these two fields.
pub record IsEnded (p q : FunctionPage) (kind : ToastKind) : Type 0 where
  pub toast : Toast
  pub told_once : q.toasts ≡ toast ∷ p.toasts
  pub of_kind : toast.kind ≡ kind
  pub idle : q.invoking ≡ false
  pub refreshed : q.refreshes ≡ suc p.refreshes
  pub same_payload : q.payload ≡ p.payload
  pub same_deleting : q.deleting ≡ p.deleting
  pub same_location : q.location ≡ p.location

one_toast :
    (p : FunctionPage) (t : Toast)
    → IsEnded p
        (record p { toasts = t ∷ p.toasts; invoking = false; refreshes = suc p.refreshes })
        t.kind
one_toast p t = record {
  toast = t;
  told_once = refl;
  of_kind = refl;
  idle = refl;
  refreshed = refl;
  same_payload = refl;
  same_deleting = refl;
  same_location = refl;
}

module _ {S : Type 0} (rendered : Json → String) (syntax_error : String → String)
    (parse : String → Option Json) (units : String → List String) (stringify : Json → String)
    (invoke_remote : String → String → S → Fetched × S) where
  after_invoke-IsEnded :
      (name : String) (p : FunctionPage) (answer : Fetched × S)
      → let (q, s') = invoked rendered syntax_error parse units stringify invoke_remote (
          after_invoke rendered syntax_error parse units stringify invoke_remote name
            (record p { invoking = true })
            answer) in
        (s' ≡ answer.1) × IsEnded p q (kind_for (is_success answer.0))
  after_invoke-IsEnded name p (rejected e, s) = (refl, one_toast p _)
  after_invoke-IsEnded name p (answered status text, s) = elim (Bool-cases (is_ok_status status)) [
    | inl e ↦ rw e (refl, one_toast p _)
    | inr e ↦ rw e (refl, one_toast p _)
  ]

  -- Where the payload is no JSON, nothing is sent and the page differs by an error toast alone. Where
  -- it is, exactly one request goes out, with the event made of it; once it is answered or lost the
  -- page is idle again, a refresh of the details is under way, and one toast tells whether the
  -- status was a success; nothing else of the page has changed.
  pub invoke-IsEnded :
      (id name : String) (p : FunctionPage) (s : S)
      → let (q, s') =
          invoke rendered syntax_error parse units stringify invoke_remote id name p s in
        ((parse p.payload ≡ none)
          × (s' ≡ s)
          × (toast : Toast) × (toast.kind ≡ bad)
          × (q ≡ told toast p))
        ⊎ ((raw : Json) × (parse p.payload ≡ some raw)
            × (let (answer, s'') = invoke_remote id (normalize_event units stringify raw) s in
                (s' ≡ s'') × IsEnded p q (kind_for (is_success answer))))
  unfolding invoke
  invoke-IsEnded id name p s = parsed (parse p.payload)
    where
      parsed :
          (o : Option Json)
          → let (q, s') =
              invoke_parsed rendered syntax_error parse units stringify invoke_remote id name p o
                s in
            ((o ≡ none) × (s' ≡ s) × (toast : Toast) × (toast.kind ≡ bad) × (q ≡ told toast p))
            ⊎ ((raw : Json) × (o ≡ some raw)
                × (let (answer, s'') = invoke_remote id (normalize_event units stringify raw) s in
                    (s' ≡ s'') × IsEnded p q (kind_for (is_success answer))))
      parsed none = inl (refl, refl, _, refl, refl)
      parsed (some raw) = inr (
        raw,
        refl,
        after_invoke-IsEnded name p (invoke_remote id (normalize_event units stringify raw) s),
      )
