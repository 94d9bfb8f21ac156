-- ===== src/Controller/Ports/Columns.antt =====
-- The columns of a line of /proc/net, as the kernel prints it, and what getUsedPorts of
-- controller/src/Ports.ts reads of them.
use foxplay_game.Common.{
  ℕ, ◌<◌, ◌/◌, ◌%◌, true, false, ◌≡◌, refl, sym, ap, ◌∙◌, List, [], ◌∷◌, ◌++◌, none, some, arith,
  ◌==◌, get_elem?, All, All-append, split_on,
}
use foxplay_game.Models.{is_space, between}
use foxplay_game.Controller.Ports.{
  Number, nan, num, parse_int_16, skip_spaces, first_word, skip_first_word, local_address,
  address_port, add_line,
}
use foxplay_game.Controller.Ports.Parse.{hex_char, hex_4, parse_int_16-hex_4}

abbrev IsSolid : List ℕ → Type 0
IsSolid = All (λ c. is_space c ≡ false)

abbrev IsFreeOf : ℕ → List ℕ → Type 0
IsFreeOf sep = All (λ c. (c == sep) ≡ false)

skip_spaces_blank :
    (blank : List ℕ) (c : ℕ) (cs : List ℕ)
    → All (λ c. is_space c ≡ true) blank
    → is_space c ≡ false
    → skip_spaces (blank ++ c ∷ cs) ≡ c ∷ cs
unfolding skip_spaces
skip_spaces_blank [] c cs h solid = rw solid refl
skip_spaces_blank (b ∷ blank) c cs h solid = rw h.0 (skip_spaces_blank blank c cs h.1 solid)

skip_first_word_word :
    (w : List ℕ) (c : ℕ) (cs : List ℕ)
    → IsSolid w
    → is_space c ≡ true
    → skip_first_word (w ++ c ∷ cs) ≡ c ∷ cs
unfolding skip_first_word
skip_first_word_word [] c cs h blank = rw blank refl
skip_first_word_word (x ∷ w) c cs h blank = rw h.0 (skip_first_word_word w c cs h.1 blank)

first_word_word :
    (w : List ℕ) (c : ℕ) (cs : List ℕ)
    → IsSolid w
    → is_space c ≡ true
    → first_word (w ++ c ∷ cs) ≡ w
unfolding first_word
first_word_word [] c cs h blank = rw blank refl
first_word_word (x ∷ w) c cs h blank = rw h.0 (ap (λ l. x ∷ l) (first_word_word w c cs h.1 blank))

split_on_plain : (sep : ℕ) (cs : List ℕ) → IsFreeOf sep cs → split_on sep cs ≡ cs ∷ []
unfolding split_on
split_on_plain sep [] h = refl
split_on_plain sep (c ∷ cs) h = rw (h.0, split_on_plain sep cs h.1) refl

split_on_first :
    (sep : ℕ) (cs ds : List ℕ)
    → IsFreeOf sep cs
    → split_on sep (cs ++ sep ∷ ds) ≡ cs ∷ split_on sep ds
unfolding split_on
split_on_first sep [] ds h = let same : (sep == sep) ≡ true = ground arith in rw same refl
split_on_first sep (c ∷ cs) ds h = rw (h.0, split_on_first sep cs ds h.1) refl

-- an address and a port in four hexadecimal digits
abbrev pub address : List ℕ → ℕ → List ℕ
address host p = host ++ b':' ∷ hex_4 p

-- A line of the kernel: blanks, a number with its colon, the local address behind one blank, and the
-- other columns behind one blank.
abbrev pub proc_line : List ℕ → ℕ → List ℕ → List ℕ → ℕ → List ℕ → List ℕ
proc_line blank i is host p rest = blank ++ i ∷ (is ++ b' ' ∷ (address host p ++ b' ' ∷ rest))

-- What the columns consist of.
pub record IsLine (blank : List ℕ) (i : ℕ) (is host : List ℕ) (p : ℕ) : Type 0 where
  pub blanks : All (λ c. is_space c ≡ true) blank
  pub index : IsSolid (i ∷ is)
  pub solid : IsSolid host
  pub one_colon : IsFreeOf b':' host
  pub port : p < 65536

hex_char_is_solid :
    (d : ℕ) → d < 16 → (is_space (hex_char d) ≡ false) × ((hex_char d == b':') ≡ false)
unfolding is_space between
hex_char_is_solid d h = (ground arith, ground arith)

hex_4-IsSolid : (p : ℕ) → p < 65536 → IsSolid (hex_4 p) × IsFreeOf b':' (hex_4 p)
hex_4-IsSolid p h =
    let a = hex_char_is_solid (p / 4096) (omega arith) in
    let b = hex_char_is_solid (p / 256 % 16) (omega arith) in
    let c = hex_char_is_solid (p / 16 % 16) (omega arith) in
    let d = hex_char_is_solid (p % 16) (omega arith) in
    ((a.0, (b.0, (c.0, (d.0, tt)))), (a.1, (b.1, (c.1, (d.1, tt)))))

address_port-address :
    (host : List ℕ) (p : ℕ)
    → IsFreeOf b':' host
    → p < 65536
    → address_port (address host p) ≡ num false p
unfolding address_port
address_port-address host p h small =
    ap (λ parts. elim (get_elem? parts 1) [ none ↦ nan | some text ↦ parse_int_16 text ])
      (split_on_first b':' host (hex_4 p) h
        ∙ ap (λ parts. host ∷ parts) (split_on_plain b':' (hex_4 p) (hex_4-IsSolid p small).1))
    ∙ parse_int_16-hex_4 p small

-- the address as its first character and the others
address_begins :
    (host : List ℕ) (p : ℕ)
    → IsSolid host
    → (c : ℕ) × (cs : List ℕ) × (address host p ≡ c ∷ cs) × (is_space c ≡ false)
unfolding is_space between
address_begins [] p h = (b':', hex_4 p, refl, refl)
address_begins (c ∷ host) p h = (c, address host p, refl, h.0)

address-IsSolid : (host : List ℕ) (p : ℕ) → IsSolid host → p < 65536 → IsSolid (address host p)
unfolding is_space between
address-IsSolid host p h small =
    All-append _ host (b':' ∷ hex_4 p) h (refl, (hex_4-IsSolid p small).0)

blank_is_space : is_space b' ' ≡ true
unfolding is_space between
blank_is_space = refl

local_address-proc_line :
    (blank : List ℕ) (i : ℕ) (is host : List ℕ) (p : ℕ) (rest : List ℕ)
    → IsLine blank i is host p
    → local_address (proc_line blank i is host p rest) ≡ address host p
unfolding local_address
local_address-proc_line blank i is host p rest h =
    let tail = address host p ++ b' ' ∷ rest in
    let (c, cs, e, solid) = address_begins host p h.solid in
    let word = address-IsSolid host p h.solid h.port in
    ap (λ l. first_word (skip_spaces (skip_first_word l)))
      (skip_spaces_blank blank i (is ++ b' ' ∷ tail) h.blanks h.index.0)
    ∙ ap (λ l. first_word (skip_spaces l))
        (skip_first_word_word (i ∷ is) b' ' tail h.index blank_is_space)
    ∙ ap (λ l. first_word (skip_spaces (b' ' ∷ (l ++ b' ' ∷ rest)))) e
    ∙ ap first_word (skip_spaces_blank (b' ' ∷ []) c (cs ++ b' ' ∷ rest) (blank_is_space, tt) solid)
    ∙ ap (λ l. first_word (l ++ b' ' ∷ rest)) (sym e)
    ∙ first_word_word (address host p) b' ' rest word blank_is_space

pub add_line-proc_line :
    (blank : List ℕ) (i : ℕ) (is host : List ℕ) (p : ℕ) (rest : List ℕ) (ports : List Number)
    → IsLine blank i is host p
    → add_line (proc_line blank i is host p rest) ports ≡ num false p ∷ ports
unfolding add_line
add_line-proc_line blank i is host p rest ports h =
    let (c, cs, e, solid) = address_begins host p h.solid in
    let port = address_port-address host p h.one_colon h.port in
    ap
      (λ (addr : List ℕ). elim addr as (λ _. List Number) [
        | [] ↦ ports
        | c ∷ cs ↦ address_port (c ∷ cs) ∷ ports
      ])
      (local_address-proc_line blank i is host p rest h ∙ e)
    ∙ ap (λ l. address_port l ∷ ports) (sym e)
    ∙ ap (λ n. n ∷ ports) port
