-- ===== src/Controller/Ports/Lines.antt =====
-- The ports that the files of /proc/net list, and what findAvailablePorts of
-- controller/src/Ports.ts makes of them.
use foxplay_game.Common.{
  ℕ, ◌+◌, ◌-◌, String, Bool, true, false, ◌||◌, ◌≡◌, ◌≢◌, ◌⊎◌, refl, sym, ap, ◌∙◌, inl, inr, List,
  [], ◌∷◌, Option, none, some, arith, drop, Option-cases, All, All-imp, All-take, split_on,
}
use foxplay_game.Controller.Ports.{
  Number, is_port, has, local_address, address_port, add_line, add_lines, add_files, proc_files,
  get_used_ports, find_available_ports, search,
}
use foxplay_game.Controller.Ports.Search.{search-eq_take, free_ports_unused}
use foxplay_game.Controller.Ports.Columns.{proc_line, IsLine, add_line-proc_line}

||-right : (a b : Bool) → b ≡ true → (a || b) ≡ true
||-right true b h = refl
||-right false b h = h

-- A port once seen stays in the set.
add_line_keeps :
    (line : List ℕ) (ports : List Number) (p : ℕ)
    → has ports p ≡ true
    → has (add_line line ports) p ≡ true
unfolding add_line
add_line_keeps line ports p h = kept (local_address line)
  where
    kept :
        (addr : List ℕ)
        → has
            (elim addr as (λ _. List Number) [
              | [] ↦ ports
              | c ∷ cs ↦ address_port (c ∷ cs) ∷ ports
            ])
            p
          ≡ true
    kept [] = h
    kept (c ∷ cs) = ||-right (is_port p (address_port (c ∷ cs))) (has ports p) h

add_lines_keeps :
    (lines : List (List ℕ)) (ports : List Number) (p : ℕ)
    → has ports p ≡ true
    → has (add_lines lines ports) p ≡ true
unfolding add_lines
add_lines_keeps [] ports p h = h
add_lines_keeps (line ∷ lines) ports p h =
    add_lines_keeps lines (add_line line ports) p (add_line_keeps line ports p h)

abbrev pub IsIn : {A : Type 0} → A → List A → Type 0
IsIn x [] = ⊥
IsIn x (y ∷ ys) = (x ≡ y) ⊎ IsIn x ys

add_lines_sees :
    (line : List ℕ) (p : ℕ) (lines : List (List ℕ)) (ports : List Number)
    → ((ports : List Number) → has (add_line line ports) p ≡ true)
    → IsIn line lines
    → has (add_lines lines ports) p ≡ true
unfolding add_lines
add_lines_sees line p [] ports seen there = absurd there
add_lines_sees line p (l ∷ lines) ports seen (inl e) =
    add_lines_keeps lines (add_line l ports) p
      (sym (ap (λ l. has (add_line l ports) p) e) ∙ seen ports)
add_lines_sees line p (l ∷ lines) ports seen (inr there) =
    add_lines_sees line p lines (add_line l ports) seen there

module _ (read : String → Option (List ℕ)) (p : ℕ) where
  add_files_keeps :
      (files : List String) (ports used : List Number)
      → add_files read files ports ≡ some used
      → has ports p ≡ true
      → has used p ≡ true
  unfolding add_files
  add_files_keeps [] ports used e h = ground arith
  add_files_keeps (file ∷ files) ports used e h = elim (Option-cases (read file)) [
    | inl missing ↦ absurd (ground arith)
    | inr (content, opened) ↦
        add_files_keeps files _ used (rw (opened, add_files) at e)
          (add_lines_keeps (drop 1 (split_on 10 content)) ports p h)
  ]

  add_files_sees :
      (line content : List ℕ) (file : String) (files : List String) (ports used : List Number)
      → ((ports : List Number) → has (add_line line ports) p ≡ true)
      → IsIn file files
      → read file ≡ some content
      → IsIn line (drop 1 (split_on 10 content))
      → add_files read files ports ≡ some used
      → has used p ≡ true
  unfolding add_files
  add_files_sees line content file [] ports used seen there r at e = absurd there
  add_files_sees line content file (f ∷ files) ports used seen (inl same) r at e =
      let opened : read f ≡ some content = ap read (sym same) ∙ r in
      add_files_keeps files _ used (rw (opened, add_files) at e)
        (add_lines_sees line p (drop 1 (split_on 10 content)) ports seen at)
  add_files_sees line content file (f ∷ files) ports used seen (inr there) r at e =
      elim (Option-cases (read f)) [
        | inl missing ↦ absurd (ground arith)
        | inr (text, opened) ↦
            add_files_sees line content file files _ used seen there r at
              (rw (opened, add_files) at e)
      ]

-- A port that one of the four files lists in a line behind the first, as the kernel prints it (a number
-- with a colon, and the local address with the port in four hexadecimal digits), is none of the ports
-- that the search gives, whatever the range is and however many are asked for.
pub find_available_ports_avoids :
    (read : String → Option (List ℕ)) (count start end p : ℕ) (file : String)
    (content blank : List ℕ) (i : ℕ) (is host rest ports : List ℕ)
    → IsIn file proc_files
    → read file ≡ some content
    → IsIn (proc_line blank i is host p rest) (drop 1 (split_on 10 content))
    → IsLine blank i is host p
    → find_available_ports read count start end ≡ some ports
    → All (λ q. q ≢ p) ports
unfolding find_available_ports get_used_ports is_port
find_available_ports_avoids read count start end p file content blank i is host rest ports known r
      at line e =
    found (add_files read proc_files []) refl e
  where
    seen : (ports : List Number) → has (add_line (proc_line blank i is host p rest) ports) p ≡ true
    seen ports = rw (add_line-proc_line blank i is host p rest ports line) (ground arith)

    found :
        (o : Option (List Number))
        → add_files read proc_files [] ≡ o
        → elim o as (λ _. Option (List ℕ)) [
          | none ↦ none
          | some used ↦ some (search count start end used)
        ]
          ≡ some ports
        → All (λ q. q ≢ p) ports
    found none q k = absurd (ground arith)
    found (some used) q k =
        let in_use = add_files_sees read p _ content file proc_files [] used seen known r at q in
        let same : search count start end used ≡ ports = ground arith in
        rw (sym same, search-eq_take count start end used)
          (All-imp (λ n free n_p. absurd (clash n free n_p in_use)) _
            (All-take _ count _ (free_ports_unused (end + 1 - start) start used)))
      where
        clash : (n : ℕ) → has used n ≡ false → n ≡ p → has used p ≡ true → ⊥
        clash n free e in_use = ground arith
