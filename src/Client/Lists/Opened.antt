-- ===== src/Client/Lists/Opened.antt =====
-- From a row of the list of servers to the page that it leads to.
use Prim.Native.String
use Prim.Native.String.{String}
use text.Mathlib.TextLemmas.{append-nil}
use foxplay_game.Common.{
  ℕ, Option, none, true, false, List, [], ◌∷◌, ◌++◌, ◌≡◌, refl, sym, ap, ◌∙◌, arith, Bool-cases,
  inl, inr, All, str_eq, eq_iff, template, codes, codes-append, drop,
}
use foxplay_game.Models.{
  is_instance_id, strip, is_prefixed_id, match_classes, uuid_tail, later_groups, times,
}
use foxplay_game.Json.{Json}
use foxplay_game.Server.{World, Fetched, ok, reply, next_fault, query}
use foxplay_game.Server.Manager.{FetchRequest}
use foxplay_game.Instances.Invariant.{IsValid}
use foxplay_game.Instances.Found.{IsThere}
use foxplay_game.Instances.Found.Listed.{list_instances-IsThere}
use foxplay_game.Instances.{InstanceListItem, InstanceDetail, detail, list_instances, get_instance}
use foxplay_game.Client.Lists.{server_entry}
use foxplay_game.Client.Frame.{title, marked, starts_with, sidebar}

abbrev below : String → String
below id = template ("/servers/" ∷ id ∷ [])

codes-below : (id : String) → codes (below id) ≡ codes "/servers/" ++ codes id
codes-below id = codes-append "/servers/" (String.◌++◌ id "") ∙ rw (append-nil id) refl

-- a path that does not begin like those of the servers' pages
differs :
    (id path : String)
    → ¬ (codes "/servers/" ++ codes id ≡ codes path)
    → str_eq (below id) path ≡ false
differs id path h = elim (Bool-cases (str_eq (below id) path)) [
  | inr e ↦ e
  | inl e ↦ absurd (h (sym (codes-below id) ∙ ap codes ((eq_iff (below id) path).0 e)))
]

starts_with-below : (id : String) → starts_with "/servers/" (below id) ≡ true
unfolding starts_with strip
starts_with-below id = rw (starts_with, codes-below id) refl

no_id : is_instance_id "create" ≡ false
unfolding is_prefixed_id match_classes uuid_tail later_groups times
no_id = refl

is_instance_id-codes : (a b : String) → codes a ≡ codes b → is_instance_id a ≡ is_instance_id b
unfolding is_prefixed_id
is_instance_id-codes a b e = rw e refl

module _ (id : String) (h : is_instance_id id ≡ true) where
  not_create : str_eq (below id) "/servers/create" ≡ false
  not_create = differs id "/servers/create" λ e.
      let same = is_instance_id-codes id "create" (ap (drop 9) e) in absurd (ground (arith, no_id))

  title-below : title (below id) ≡ "Server details"
  unfolding title
  title-below =
      rw (differs id "/servers" (λ e. ground arith), not_create, starts_with-below id) refl

  marked-below : marked (below id) ≡ []
  unfolding sidebar
  marked-below =
      rw
        (
          differs id "/servers" (λ e. ground arith),
          differs id "/friends" (λ e. ground arith),
          differs id "/functions" (λ e. ground arith),
          differs id "/ssh-keys" (λ e. ground arith),
        )
        refl

module _ {S : Type 0} (fetch : FetchRequest → S → Fetched × S) (parse : String → Option Json)
    (zod : String → Option Json → String) (now : ℕ) (fresh : String) (decode : String → String)
    (plain : (s : String) → is_instance_id s ≡ true → decode s ≡ s) where
  -- the page of an item: its title, the link that the sidebar marks, and the server that it shows
  abbrev pub OpensAt : World S → InstanceListItem → Type 0
  OpensAt w i =
      (title (server_entry i).href ≡ "Server details")
      × (marked (server_entry i).href ≡ [])
      × (d : InstanceDetail) × ((get_instance fetch parse zod now fresh (decode i.id) w).0
          ≡ ok (reply 200 d))
      × (d.id ≡ i.id)
      × (d.name ≡ i.name)

  found_detail :
      (w : World S) (i : InstanceListItem)
      → next_fault w.faults ≡ none
      → is_instance_id i.id ≡ true
      → IsThere w.instances i
      → OpensAt w i
  unfolding get_instance query
  found_detail w i calm form (r, e, same, name) = (
    title-below i.id form,
    marked-below i.id form,
    detail r,
    rw (plain i.id form) (ground arith),
    same,
    name,
  )

  All-found :
      (w : World S) (items : List InstanceListItem)
      → next_fault w.faults ≡ none
      → All (λ i. is_instance_id i.id ≡ true) items
      → All (IsThere w.instances) items
      → All (OpensAt w) items
  All-found w [] calm forms h = tt
  All-found w (i ∷ items) calm forms h =
      (found_detail w i calm forms.0 h.0, All-found w items calm forms.1 h.1)

  -- Where the listing of a table that satisfies the invariant answers with items whose ids have the
  -- form of an instance's, `decodeURIComponent` leaves such ids as they are, and the database executes
  -- the next statement, each row of the list leads to a page with the title of a server's page and no
  -- link marked, and the route that the page fetches answers 200 with the server of the item's id
  -- and name.
  pub list_instances-OpensAt :
      (w w' : World S) (items : List InstanceListItem)
      → IsValid w.instances
      → list_instances fetch parse zod now fresh w ≡ (ok (reply 200 items), w')
      → next_fault w'.faults ≡ none
      → All (λ i. is_instance_id i.id ≡ true) items
      → All (OpensAt w') items
  list_instances-OpensAt w w' items v e calm forms =
      All-found w' items calm forms
        (list_instances-IsThere fetch parse zod now fresh w w' items v e)
