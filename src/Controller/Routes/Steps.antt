-- ===== src/Controller/Routes/Steps.antt =====
-- What each step of the route that creates a server has done where its response is a success.
use foxplay_game.Common.{
  ℕ, String, Bool, true, false, Option, none, some, List, [], ◌∷◌, ◌≡◌, refl, ap, sym, ◌∙◌, arith,
  template, length,
}
use foxplay_game.Json.{Json}
use foxplay_game.Controller.Games.{PortConfig, ServerEntry}
use foxplay_game.Controller.Ports.{find_available_ports}
use foxplay_game.Controller.Assign.{unique_ports, assign}
use foxplay_game.Controller.Podman.{
  ContainerSpec, PodmanRequest, HttpReply, PodmanError, Settled, resolved, rejected, pending,
}
use foxplay_game.Controller.Routes.{
  created, sent, error_reply, created_reply, containers, ask, container_id, id_in_path, no_member,
  start_created, after_create, create_container, spec_of, create_assigned, create_found,
  create_placed,
}

-- An error is no success.
error_reply-created :
    (e : PodmanError) (id : Option Json) (ports : List PortConfig)
    → ¬ (error_reply e ≡ sent 200 (created id ports))
unfolding error_reply
error_reply-created e id ports h = ground arith

created_reply-resolved :
    (r : Settled Json) (id id' : Option Json) (ports ports' : List PortConfig)
    → created_reply id ports r ≡ sent 200 (created id' ports')
    → (v : Json) × (r ≡ resolved v) × (id ≡ id') × (ports ≡ ports')
unfolding created_reply
created_reply-resolved (resolved v) id id' ports ports' h = (v, refl, ground arith, ground arith)
created_reply-resolved (rejected e) id id' ports ports' h =
    absurd (error_reply-created e id' ports' h)
created_reply-resolved pending id id' ports ports' h = absurd (ground arith)

module _ {S : Type 0} (http : PodmanRequest → S → HttpReply × S) (parse : String → Option Json)
    (text : Json → String) (mkdir : String → S → Bool × S)
    (read : S → String → Option (List ℕ)) where
  abbrev pub request : String → Option ContainerSpec → S → Settled Json × S
  request = ask http parse text mkdir read "POST"

  abbrev in_path : Option Json → String
  in_path = id_in_path http parse text mkdir read

  pub start_created-resolved :
      (o : Option (Option Json)) (id : Option Json) (ports ports' : List PortConfig) (s s' : S)
      → start_created http parse text mkdir read o ports s ≡ (sent 200 (created id ports'), s')
      → (o ≡ some id)
        × (ports ≡ ports')
        × (v : Json) × (request (template (containers ∷ in_path id ∷ "/start" ∷ [])) none s
            ≡ (resolved v, s'))
  unfolding start_created
  start_created-resolved none id ports ports' s s' h =
      absurd
        (error_reply-created (no_member http parse text mkdir read) id ports' (ap (λ r. r.0) h))
  start_created-resolved (some id') id ports ports' s s' h =
      let (v, ok, same, kept) = created_reply-resolved _ id' id ports ports' (ap (λ r. r.0) h) in
      (
        ap some same,
        kept,
        v,
        ap (λ i. request (template (containers ∷ in_path i ∷ "/start" ∷ [])) none s) (sym same)
            ∙ ap
                (λ r. (r, (request (template (containers ∷ in_path id' ∷ "/start" ∷ [])) none s).1))
                ok
            ∙ ap (λ t. (resolved v, t)) (ap (λ r. r.1) h),
      )

  pub after_create-resolved :
      (ports ports' : List PortConfig) (r : Settled Json) (id : Option Json) (s s' : S)
      → after_create http parse text mkdir read ports r s ≡ (sent 200 (created id ports'), s')
      → (v : Json) × (r ≡ resolved v)
        × (start_created http parse text mkdir read
              (container_id http parse text mkdir read v)
              ports
              s
            ≡ (sent 200 (created id ports'), s'))
  unfolding after_create
  after_create-resolved ports ports' (resolved v) id s s' h = (v, refl, h)
  after_create-resolved ports ports' (rejected e) id s s' h =
      absurd (error_reply-created e id ports' (ap (λ r. r.0) h))
  after_create-resolved ports ports' pending id s s' h = absurd (ground arith)

  pub create_placed-found :
      (config : ServerEntry) (game version : String) (name : Json) (id : Option Json)
      (ports : List PortConfig) (made : Bool) (s s' : S)
      → create_placed http parse text mkdir read config game version name made s
        ≡ (sent 200 (created id ports), s')
      → (made ≡ true)
        × (create_found http parse text mkdir read config game version name
              (find_available_ports (read s) (length (unique_ports config.port_config)) 20000 60000)
              s
            ≡ (sent 200 (created id ports), s'))
  unfolding create_placed
  create_placed-found config game version name id ports false s s' h = absurd (ground arith)
  create_placed-found config game version name id ports true s s' h = (refl, h)

  pub create_found-assigned :
      (config : ServerEntry) (game version : String) (name : Json) (id : Option Json)
      (ports : List PortConfig) (o : Option (List ℕ)) (s s' : S)
      → create_found http parse text mkdir read config game version name o s
        ≡ (sent 200 (created id ports), s')
      → (available : List ℕ) × (o ≡ some available)
        × (create_assigned http parse text mkdir read config version name
              (assign game config.port_config available)
              s
            ≡ (sent 200 (created id ports), s'))
  unfolding create_found
  create_found-assigned config game version name id ports none s s' h = absurd (ground arith)
  create_found-assigned config game version name id ports (some available) s s' h =
      (available, refl, h)

  pub create_assigned-created :
      (config : ServerEntry) (version : String) (name : Json) (id : Option Json)
      (ports : List PortConfig) (o : Option (List PortConfig × List (String × String))) (s s' : S)
      → create_assigned http parse text mkdir read config version name o s
        ≡ (sent 200 (created id ports), s')
      → (assigned : List PortConfig × List (String × String)) × (o ≡ some assigned)
        × (create_container http parse text mkdir read
              (spec_of http parse text mkdir read config version name assigned)
              s
            ≡ (sent 200 (created id ports), s'))
  unfolding create_assigned
  create_assigned-created config version name id ports none s s' h = absurd (ground arith)
  create_assigned-created config version name id ports (some assigned) s s' h = (assigned, refl, h)
