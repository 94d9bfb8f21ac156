-- ===== src/Controller/Routes/Hosted.antt =====
-- What the route that creates a server has done where it answers 200: which ports of the host the
-- container has, and what podman was asked.
use foxplay_game.Common.{
  ℕ, ◌≤◌, ◌<◌, String, Bool, true, false, Option, none, some, List, [], ◌∷◌, ◌≡◌, ◌≢◌, ◌⊎◌, inl,
  inr, refl, sym, ◌∙◌, arith, template, length, map, any, leb, leb_iff, ◌==◌, ==_iff, All, All-imp,
  Bool-cases, Option-cases,
}
use mathlib.Core.Path.{subst}
use foxplay_game.Json.{Json}
use foxplay_game.Controller.Games.{PortConfig, ServerEntry, get_server, is_valid}
use foxplay_game.Controller.Ports.{Number, has, get_used_ports, search, find_available_ports}
use foxplay_game.Controller.Ports.Search.{free_ports, IsAscending, search_sound}
use foxplay_game.Controller.Assign.{unique_ports, hosted}
use foxplay_game.Controller.Assign.Mapping.{host_of, host_of-IsOneToOne, assign-map}
use foxplay_game.Controller.Podman.{
  Mount, ContainerSpec, PodmanRequest, HttpReply, resolved, podman,
}
use foxplay_game.Controller.Routes.{
  created, sent, container_id, id_in_path, template_text, name_of, create_route, spec_of,
}
use foxplay_game.Controller.Routes.Creation.{
  IsCreation, provide-IsCreation, create_route-invalid, create_route-provide,
}

-- One port of the host for each port of the container, out of 20000 to 60000, none in use, and no two
-- ports of the container share one.
pub record AreFree (cs : List PortConfig) (used : List Number) (host : Option ℕ → Option ℕ)
    : Type 0 where
  pub free :
      All
        (λ c.
          (a : ℕ) × (host c.container_port ≡ some a)
          × (20000 ≤ a)
          × (a ≤ 60000)
          × (has used a ≡ false))
        cs
  pub apart :
      All
        (λ c.
          All
            (λ d.
              host c.container_port ≡ host d.container_port → c.container_port ≡ d.container_port)
            cs)
        cs

any-All : (P : ℕ → Type 0) (a : ℕ) (xs : List ℕ) → All P xs → any (λ b. a == b) xs ≡ true → P a
any-All P a [] h e = absurd (ground arith)
any-All P a (x ∷ xs) h e = elim (Bool-cases (a == x)) [
  | inl same ↦ subst P (sym ((==_iff a x).0 same)) h.0
  | inr other ↦ any-All P a xs h.1 (ground arith)
]

find_available_ports-search :
    (read : String → Option (List ℕ)) (count start end : ℕ) (ports : List ℕ)
    → find_available_ports read count start end ≡ some ports
    → (used : List Number) × (get_used_ports read ≡ some used)
      × (search count start end used ≡ ports)
unfolding find_available_ports
find_available_ports-search read count start end ports e =
    elim (Option-cases (get_used_ports read)) [
      | inl failed ↦ absurd (ground arith)
      | inr (used, seen) ↦ (used, seen, ground arith)
    ]

host_of-AreFree :
    (cs : List PortConfig) (used : List Number) (available : List ℕ)
    → search (length (unique_ports cs)) 20000 60000 used ≡ available
    → (length (free_ports 40001 20000 used) < length (unique_ports cs))
      ⊎ AreFree cs used (host_of cs available)
host_of-AreFree cs used available found =
    let needed = length (unique_ports cs) in
    let (good, up, count) = search_sound needed 20000 60000 used (omega arith) in
    elim (Bool-cases (leb needed (length (free_ports 40001 20000 used)))) [
      | inr few ↦ inl (ground (arith, leb_iff needed (length (free_ports 40001 20000 used))))
      | inl plenty ↦
          let le = (leb_iff needed (length (free_ports 40001 20000 used))).0 plenty in
          let enough : needed ≤ length (search needed 20000 60000 used) =
            omega (arith, count, le) in
          let one =
            host_of-IsOneToOne cs available (subst IsAscending found up)
              (subst (λ l. needed ≤ length l) found enough) in
          let all = subst (All _) found good in
          inr (record {
            free =
                All-imp
                  (λ c h.
                    let (low, high, unused) = any-All _ h.0 available all h.2 in
                    (h.0, h.1, low, high, unused))
                  cs one.found;
            apart = one.apart;
          })
    ]

module _ {S : Type 0} (http : PodmanRequest → S → HttpReply × S) (parse : String → Option Json)
    (text : Json → String) (mkdir : String → S → Bool × S)
    (read : S → String → Option (List ℕ)) where
  abbrev printed : Json → String
  printed = template_text http parse text mkdir read

  -- A server that was created with a name, an id and port mappings.
  pub record IsHosted (config : ServerEntry) (version : String) (name : Json) (s s' : S)
      (id : Option Json) (ports : List PortConfig) : Type 0 where
    pub s₁ : S
    pub made : mkdir (template ("/foxplay-games/" ∷ printed name ∷ [])) s ≡ (true, s₁)
    pub used : List Number
    pub seen : get_used_ports (read s₁) ≡ some used
    pub host : Option ℕ → Option ℕ
    pub mapped : ports ≡ map (λ c. hosted (host c.container_port) c) config.port_config
    pub free :
        (length (free_ports 40001 20000 used) < length (unique_ports config.port_config))
        ⊎ AreFree config.port_config used host
    pub spec : ContainerSpec
    pub described :
        (spec.image ≡ template (config.image ∷ ":" ∷ version ∷ []))
        × (spec.name ≡ name)
        × (spec.portmappings ≡ ports)
        × (spec.env ≡ [])
    pub mount : Mount
    pub mounted :
        (spec.mounts ≡ mount ∷ [])
        × (mount.source ≡ template ("/foxplay-games/" ∷ printed name ∷ []))
        × (mount.destination ≡ config.backup_path)
    pub answer : Json
    pub s₂ : S
    pub asked :
        podman http parse
          (record { method = "POST"; path = "/v5.0.0/libpod/containers/create"; body = some spec })
          s₁
        ≡ (resolved answer, s₂)
    pub named : container_id http parse text mkdir read answer ≡ some id
    pub last : Json
    pub started :
        podman http parse
          (record {
            method = "POST";
            path = template (
                "/v5.0.0/libpod/containers/"
                ∷ id_in_path http parse text mkdir read id
                ∷ "/start"
                ∷ []);
            body = none;
          })
          s₂
        ≡ (resolved last, s')

  IsCreation-IsHosted :
      (game version : String) (name : Json) (config : ServerEntry) (s s' : S) (id : Option Json)
      (ports : List PortConfig)
      → game ≢ "satisfactory"
      → IsCreation http parse text mkdir read game version name config s s' id ports
      → IsHosted config version name s s' id ports
  IsCreation-IsHosted game version name config s s' id ports ne c =
      let (used, seen, found) = find_available_ports-search (read c.s₁) _ 20000 60000 _ c.found in
      let both = sym c.given ∙ assign-map game config.port_config c.available ne in
      record {
        s₁ = c.s₁;
        made = c.made;
        used = used;
        seen = seen;
        host = host_of config.port_config c.available;
        mapped = ground arith;
        free = host_of-AreFree config.port_config used c.available found;
        spec = spec_of http parse text mkdir read config version name (ports, c.env);
        described = (refl, refl, refl, ground arith);
        mount = record {
          kind = "bind";
          source = template ("/foxplay-games/" ∷ printed name ∷ []);
          destination = config.backup_path;
          options = "rbind" ∷ "rw" ∷ [];
        };
        mounted = (refl, refl, refl);
        answer = c.answer;
        s₂ = c.s₂;
        asked = c.asked;
        named = c.named;
        last = c.last;
        started = c.started;
      }

  -- Where the route answers 200, for a game other than "satisfactory": the parameters are valid; the
  -- directory of the container was made; the mappings in the answer are those of the game with a host port
  -- each, from 20000 to 60000, that the files of /proc/net did not list, and no two ports of the container
  -- share one, unless fewer of these were free than the container has ports; podman was asked for one
  -- container with these mappings, the name, the image of the version and the directory, and the answer's
  -- id (which may be missing) is what podman gave; and podman has started the container by that id.
  pub create_route-IsHosted :
      (draw : S → ℕ × S) (game server version : String) (name : Option Json) (config : ServerEntry)
      (id : Option Json) (ports : List PortConfig) (s s' : S)
      → game ≢ "satisfactory"
      → get_server game server ≡ some config
      → create_route http parse text mkdir read draw game server version name s
        ≡ (sent 200 (created id ports), s')
      → let (named, s₀) = name_of http parse text mkdir read draw name config version s in
        (is_valid game server version ≡ true) × IsHosted config version named s₀ s' id ports
  create_route-IsHosted draw game server version name config id ports s s' ne g h =
      elim (Bool-cases (is_valid game server version)) [
        | inr e ↦ absurd (
            ground (
              arith,
              h,
              create_route-invalid http parse text mkdir read draw game server version name s e,
            ))
        | inl e ↦
            let run =
              sym (
                create_route-provide http parse text mkdir read draw game server version name config
                  s e g)
              ∙ h in
            (
              e,
              IsCreation-IsHosted game version _ config _ s' id ports ne (
                  provide-IsCreation http parse text mkdir read config game version _ id ports _ s'
                    run),
            )
      ]
