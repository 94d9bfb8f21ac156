-- ===== src/Controller/Routes/Replies.antt =====
-- What the routes of the controller answer, and when.
use foxplay_game.Common.{
  ℕ, String, Bool, Option, none, some, List, [], ◌∷◌, ◌≡◌, ◌≢◌, ◌⊎◌, inl, inr, refl, ap, ◌∙◌, ◌≤◌,
  ◌<◌, arith, template, ◌==◌, if◌then◌else◌, Bool-cases, leb, ltb, show, ◌&&◌,
}
use foxplay_game.Json.{Json}
use foxplay_game.Controller.Podman.{
  PodmanRequest, HttpReply, ended, PodmanError, resolved, rejected, parsed_body, finished, settle,
  podman,
}
use foxplay_game.Controller.Routes.{
  failed, managed, Reply, sent, unanswered, error_reply, managed_reply, manage,
}

-- The statuses for which podman's answer is a result.
abbrev pub IsSuccess : ℕ → Type 0
IsSuccess status = (200 ≤ status) × (status < 300)

-- The status for each answer that is no success.
abbrev pub refusal : ℕ → ℕ
refusal status = if status == 404 then 404 else if status == 409 then 409 else 500

error_reply-refusal :
    (message : String) (status : ℕ)
    → error_reply (record { message = message; response = some status })
      ≡ sent (refusal status) (failed (record { message = message; response = some status }))
unfolding error_reply
error_reply-refusal message status = ground arith

finished-IsSuccess :
    (status : ℕ) (v : Json)
    → (IsSuccess status × (finished status (some v) ≡ resolved v))
      ⊎ (¬ IsSuccess status)
        × ((message : String) × (finished status (some v)
              ≡ rejected (record { message = message; response = some status })))
unfolding finished
finished-IsSuccess status v = elim (Bool-cases (leb 200 status && ltb status 300)) [
  | inl b ↦ inl (ground arith, rw b refl)
  | inr b ↦ inr (ground arith, (template ("HTTP " ∷ show status ∷ []), rw b refl))
]

module _ {S : Type 0} (http : PodmanRequest → S → HttpReply × S) (parse : String → Option Json)
    (text : Json → String) (mkdir : String → S → Bool × S)
    (read : S → String → Option (List ℕ)) where
  manage-settle :
      (method path id : String) (s s' : S) (h : HttpReply)
      → http (record { method = method; path = path; body = none }) s ≡ (h, s')
      → manage http parse text mkdir read method path id s ≡ (managed_reply id (settle parse h), s')
  unfolding manage podman
  manage-settle method path id s s' h e = rw e refl

  -- What stop, start and destroy answer once podman has answered, by its status and its body: nothing
  -- exactly where the body neither is empty nor parses; 200 and the container's id for a success; and
  -- else an error, with status 404 for 404, 409 for 409 and 500 for each other status.
  pub manage_replies :
      (method path id : String) (s s' : S) (status : ℕ) (raw : String)
      → http (record { method = method; path = path; body = none }) s ≡ (ended status raw, s')
      → (parsed_body parse raw ≡ none)
          × (manage http parse text mkdir read method path id s ≡ (unanswered, s'))
        ⊎ (parsed_body parse raw ≢ none)
          × (IsSuccess status
                × (manage http parse text mkdir read method path id s ≡ (sent 200 (managed id), s'))
              ⊎ (¬ IsSuccess status)
                × ((e : PodmanError) × (manage http parse text mkdir read method path id s
                      ≡ (sent (refusal status) (failed e), s'))))
  unfolding managed_reply finished
  manage_replies method path id s s' status raw e =
      answer (parsed_body parse raw)
        (manage-settle method path id s s' (ended status raw) e ∙ unfold settle in refl)
    where
      ran : Reply × S
      ran = manage http parse text mkdir read method path id s

      answer :
          (body : Option Json)
          → ran ≡ (managed_reply id (finished status body), s')
          → (body ≡ none) × (ran ≡ (unanswered, s'))
            ⊎ (body ≢ none)
              × (IsSuccess status × (ran ≡ (sent 200 (managed id), s'))
                  ⊎ (¬ IsSuccess status)
                    × ((f : PodmanError) × (ran ≡ (sent (refusal status) (failed f), s'))))
      answer none run = inl (refl, run)
      answer (some v) run = elim (finished-IsSuccess status v) [
        | inl (ok, q) ↦ inr (ground arith, inl (ok, run ∙ ap (λ r. (managed_reply id r, s')) q))
        | inr (refused, rest) ↦ inr (
          ground arith,
          inr (
            refused,
            (
              _,
              run
                  ∙ ap (λ r. (managed_reply id r, s')) rest.1
                  ∙ ap (λ r. (r, s')) (error_reply-refusal rest.0 status),
            ),
          ),
        )
      ]
