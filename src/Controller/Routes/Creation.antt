-- ===== src/Controller/Routes/Creation.antt =====
-- The steps of the route that creates a server, where it succeeds.
use foxplay_game.Common.{
  ℕ, String, Bool, true, false, Option, none, some, List, [], ◌∷◌, ◌≡◌, inl, inr, refl, ap, sym,
  ◌∙◌, arith, template, length, Option-cases,
}
use foxplay_game.Json.{Json}
use foxplay_game.Controller.Games.{PortConfig, ServerEntry, get_server, is_valid}
use foxplay_game.Controller.Ports.{find_available_ports}
use foxplay_game.Controller.Assign.{unique_ports, assign}
use foxplay_game.Controller.Podman.{ContainerSpec, PodmanRequest, HttpReply, resolved}
use foxplay_game.Controller.Routes.{
  invalid_params, created, sent, created_reply, containers, ask, container_id, id_in_path,
  template_text, start_created, after_create, create_container, spec_of, name_of, create_assigned,
  create_found, create_placed, provide, create_route,
}
use foxplay_game.Controller.Routes.Steps.{
  request, start_created-resolved, after_create-resolved, create_placed-found,
  create_found-assigned, create_assigned-created,
}

-- A valid version is one of a server in the table.
is_valid-get_server :
    (game server version : String)
    → is_valid game server version ≡ true
    → (config : ServerEntry) × (get_server game server ≡ some config)
unfolding is_valid
is_valid-get_server game server version e = elim (Option-cases (get_server game server)) [
  | inl g ↦ absurd (ground (arith, rw (g, is_valid) at e))
  | inr c ↦ c
]

module _ {S : Type 0} (http : PodmanRequest → S → HttpReply × S) (parse : String → Option Json)
    (text : Json → String) (mkdir : String → S → Bool × S)
    (read : S → String → Option (List ℕ)) where
  -- The steps of a creation that succeeds: the directory is made, ports are found and given to the
  -- mappings of the game, podman creates the container for these and gives its id, and starts it.
  pub record IsCreation (game version : String) (name : Json) (config : ServerEntry) (s s' : S)
      (id : Option Json) (ports : List PortConfig) : Type 0 where
    pub s₁ : S
    pub made :
        mkdir (template ("/foxplay-games/" ∷ template_text http parse text mkdir read name ∷ [])) s
        ≡ (true, s₁)
    pub available : List ℕ
    pub found :
        find_available_ports (read s₁) (length (unique_ports config.port_config)) 20000 60000
        ≡ some available
    pub env : List (String × String)
    pub given : assign game config.port_config available ≡ some (ports, env)
    pub answer : Json
    pub s₂ : S
    pub asked :
        ask http parse text mkdir read "POST"
          (template (containers ∷ "create" ∷ []))
          (some (spec_of http parse text mkdir read config version name (ports, env)))
          s₁
        ≡ (resolved answer, s₂)
    pub named : container_id http parse text mkdir read answer ≡ some id
    pub last : Json
    pub started :
        ask http parse text mkdir read "POST"
          (template (containers ∷ id_in_path http parse text mkdir read id ∷ "/start" ∷ []))
          none
          s₂
        ≡ (resolved last, s')

  pub provide-IsCreation :
      (config : ServerEntry) (game version : String) (name : Json) (id : Option Json)
      (ports : List PortConfig) (s s' : S)
      → provide http parse text mkdir read config game version name s
        ≡ (sent 200 (created id ports), s')
      → IsCreation game version name config s s' id ports
  unfolding provide create_container
  provide-IsCreation config game version name id ports s s' h =
      let (made, h₁) =
        create_placed-found http parse text mkdir read config game version name id ports _ _ s' h in
      let (available, found, h₂) =
        create_found-assigned http parse text mkdir read config game version name id ports _ _ s'
          h₁ in
      let (assigned, given, h₃) =
        create_assigned-created http parse text mkdir read config version name id ports _ _ s' h₂ in
      let (answer, asked, h₄) =
        after_create-resolved http parse text mkdir read _ ports _ id _ s' h₃ in
      let (named, same, last, started) =
        start_created-resolved http parse text mkdir read _ id _ ports _ s' h₄ in
      let placed =
        mkdir (template ("/foxplay-games/" ∷ template_text http parse text mkdir read name ∷ []))
          s in
      let create = template (containers ∷ "create" ∷ []) in
      let spec : List PortConfig → ContainerSpec =
        λ p. spec_of http parse text mkdir read config version name (p, assigned.1) in
      record {
        s₁ = placed.1;
        made = ap (λ b. (b, placed.1)) made;
        available = available;
        found = found;
        env = assigned.1;
        given = given ∙ ap (λ p. some (p, assigned.1)) same;
        answer = answer;
        s₂ = (request http parse text mkdir read create (some (spec assigned.0)) placed.1).1;
        asked =
            ap (λ p. request http parse text mkdir read create (some (spec p)) placed.1) (sym same)
            ∙ ap
                (λ r. (
                  r,
                  (request http parse text mkdir read create (some (spec assigned.0)) placed.1).1,
                ))
                asked;
        named = named;
        last = last;
        started = started;
      }

  IsCreation-provide :
      (config : ServerEntry) (game version : String) (name : Json) (id : Option Json)
      (ports : List PortConfig) (s s' : S)
      → IsCreation game version name config s s' id ports
      → provide http parse text mkdir read config game version name s
        ≡ (sent 200 (created id ports), s')
  unfolding provide create_placed create_found create_assigned create_container after_create
      start_created created_reply
  IsCreation-provide config game version name id ports s s' c =
      ap (λ r. create_placed http parse text mkdir read config game version name r.0 r.1) c.made
      ∙ ap (λ o. create_found http parse text mkdir read config game version name o c.s₁) c.found
      ∙ ap (λ o. create_assigned http parse text mkdir read config version name o c.s₁) c.given
      ∙ ap (λ r. after_create http parse text mkdir read ports r.0 r.1) c.asked
      ∙ ap (λ o. start_created http parse text mkdir read o ports c.s₂) c.named
      ∙ ap (λ r. (created_reply id ports r.0, r.1)) c.started

  pub create_route-invalid :
      (draw : S → ℕ × S) (game server version : String) (name : Option Json) (s : S)
      → is_valid game server version ≡ false
      → create_route http parse text mkdir read draw game server version name s
        ≡ (sent 400 invalid_params, s)
  unfolding create_route
  create_route-invalid draw game server version name s e = rw e refl

  pub create_route-provide :
      (draw : S → ℕ × S) (game server version : String) (name : Option Json) (config : ServerEntry)
      (s : S)
      → is_valid game server version ≡ true
      → get_server game server ≡ some config
      → create_route http parse text mkdir read draw game server version name s ≡ (
          let (named, s') = name_of http parse text mkdir read draw name config version s in
          provide http parse text mkdir read config game version named s')
  unfolding create_route
  create_route-provide draw game server version name config s e g = rw (e, g) refl
