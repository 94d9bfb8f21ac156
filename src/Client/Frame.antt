-- ===== src/Client/Frame.antt =====
-- frontend/components/Sidebar.tsx and frontend/components/Header.tsx: the links beside every page, and
-- the title above it. `pathname` is what `usePathname` gives.
use mathlib.Core.Path.{subst}
use foxplay_game.Common.{
  String, Bool, true, false, ◌≡◌, refl, ◌⊎◌, inl, inr, List, [], ◌∷◌, map, Option, none, some, sym,
  any, str_eq, eq_iff, codes, template, select, Bool-cases, if◌then◌else◌,
}
use foxplay_game.Models.{strip}

-- `pathname.startsWith(prefix)`
unfoldable pub starts_with : String → String → Bool
unfolding strip
starts_with prefix pathname = elim (strip (codes prefix) (codes pathname)) [
  | none ↦ false
  | some rest ↦ true
]

-- the header's text
unfoldable pub title : String → String
unfolding starts_with
title pathname =
    if str_eq pathname "/servers"
    then "Your servers"
    else if str_eq pathname "/servers/create"
    then "Create a server"
    else if starts_with "/servers/" pathname
    then "Server details"
    else if str_eq pathname "/friends"
    then "Your friends"
    else if str_eq pathname "/ssh-keys"
    then "Your SSH keys"
    else if str_eq pathname "/functions"
    then "Your functions"
    else if str_eq pathname "/functions/create"
    then "Create a function"
    else if starts_with "/functions/" pathname
    then "Function details"
    else ""

-- a link of the sidebar: where it leads, its class, and its text
pub record Link : Type 0 where
  pub href : String
  pub class : Option String
  pub label : String

abbrev pub nav_class : String → String → String
nav_class href pathname = template ("nav" ∷ (if str_eq pathname href then " selected" else "") ∷ [])

abbrev nav_link : String → String × String → Link
nav_link pathname (href, label) = record {
  href = href;
  class = some (nav_class href pathname);
  label = label;
}

-- the four links that can be marked
abbrev pub places : List (String × String)
places =
    ("/servers", "Servers")
    ∷ ("/friends", "Friends")
    ∷ ("/functions", "Functions")
    ∷ ("/ssh-keys", "SSH Keys")
    ∷ []

-- the logo, the button, and the four links
unfoldable pub sidebar : String → List Link
sidebar pathname =
    record { href = "/"; class = none; label = "Foxplay" }
    ∷ record { href = "/servers/create"; class = some "newGameButton"; label = "New server" }
    ∷ map (nav_link pathname) places

abbrev is_marked : Link → Bool
is_marked l = elim l.class [ none ↦ false | some class ↦ str_eq class "nav selected" ]

-- The links that are marked as the page that is open.
abbrev pub marked : String → List Link
marked pathname = select is_marked (sidebar pathname)

abbrev pub marked_link : String → String → Link
marked_link href label = record { href = href; class = some "nav selected"; label = label }

-- A page that the sidebar leads to, with the text of its link and the title above it.
pub data IsHeaded : String → String → String → Type 0 where
  servers : IsHeaded "/servers" "Servers" "Your servers"
  friends : IsHeaded "/friends" "Friends" "Your friends"
  functions : IsHeaded "/functions" "Functions" "Your functions"
  ssh_keys : IsHeaded "/ssh-keys" "SSH Keys" "Your SSH keys"

-- the titles of those pages
abbrev pub headings : List String
headings = "Your servers" ∷ "Your friends" ∷ "Your functions" ∷ "Your SSH keys" ∷ []

abbrev IsFramed : String → Type 0
IsFramed pathname =
    ((label : String) × (heading : String) × IsHeaded pathname label heading
      × (marked pathname ≡ marked_link pathname label ∷ [])
      × (title pathname ≡ heading))
    ⊎ ((marked pathname ≡ []) × (any (str_eq (title pathname)) headings ≡ false))

title-other :
    (pathname : String)
    → str_eq pathname "/servers" ≡ false
    → str_eq pathname "/friends" ≡ false
    → str_eq pathname "/functions" ≡ false
    → str_eq pathname "/ssh-keys" ≡ false
    → any (str_eq (title pathname)) headings ≡ false
unfolding title
title-other pathname e f g h =
    rw (e, f, g, h)
      (other (str_eq pathname "/servers/create") (starts_with "/servers/" pathname)
        (str_eq pathname "/functions/create") (starts_with "/functions/" pathname))
  where
    other :
        (a b c d : Bool)
        → any
            (str_eq (
              if a
              then "Create a server"
              else if b
              then "Server details"
              else if c
              then "Create a function"
              else if d
              then "Function details"
              else ""))
            headings
          ≡ false
    other true b c d = refl
    other false true c d = refl
    other false false true d = refl
    other false false false true = refl
    other false false false false = refl

marked-other :
    (pathname : String)
    → str_eq pathname "/servers" ≡ false
    → str_eq pathname "/friends" ≡ false
    → str_eq pathname "/functions" ≡ false
    → str_eq pathname "/ssh-keys" ≡ false
    → marked pathname ≡ []
unfolding sidebar
marked-other pathname e f g h = rw (e, f, g, h) refl

at_place :
    (pathname href : String) → str_eq pathname href ≡ true → IsFramed href → IsFramed pathname
at_place pathname href e h = subst IsFramed (sym ((eq_iff pathname href).0 e)) h

-- On every path either the path is that of one of the four places, the sidebar marks the link to it
-- and no other, and the title is that of the place; or the sidebar marks no link, and the title is
-- none of the four.
pub marked-title :
    (pathname : String)
    → ((label : String) × (heading : String) × IsHeaded pathname label heading
        × (marked pathname ≡ marked_link pathname label ∷ [])
        × (title pathname ≡ heading))
      ⊎ ((marked pathname ≡ []) × (any (str_eq (title pathname)) headings ≡ false))
unfolding title sidebar
marked-title pathname = elim (Bool-cases (str_eq pathname "/servers")) [
  | inl e ↦ at_place pathname "/servers" e (inl ("Servers", "Your servers", servers, refl, refl))
  | inr e ↦ elim (Bool-cases (str_eq pathname "/friends")) [
    | inl f ↦ at_place pathname "/friends" f (inl ("Friends", "Your friends", friends, refl, refl))
    | inr f ↦ elim (Bool-cases (str_eq pathname "/functions")) [
      | inl g ↦
          at_place pathname "/functions" g
            (inl ("Functions", "Your functions", functions, refl, refl))
      | inr g ↦ elim (Bool-cases (str_eq pathname "/ssh-keys")) [
        | inl h ↦
            at_place pathname "/ssh-keys" h
              (inl ("SSH Keys", "Your SSH keys", ssh_keys, refl, refl))
        | inr h ↦ inr (marked-other pathname e f g h, title-other pathname e f g h)
      ]
    ]
  ]
]
