-- ===== src/Codegen/Settled.antt =====
-- Writing the generated files and checking them.
use foxplay_game.Common.{
  ℕ, String, Bool, true, false, not, ◌&&◌, List, [], ◌∷◌, Option, none, some, ◌≡◌, refl, sym, ap,
  ◌∙◌, inl, inr, arith, ◌≢◌, eq_iff, eq_refl, all, All, Bool-cases,
}
use foxplay_game.Codegen.{Output}
use foxplay_game.Codegen.Files.{FileSystem, FileLaws, Ended, same_text, after_write, logged, emit}

pub same_text_iff :
    (text : Option String) (content : String) → same_text text content ≡ true → text ≡ some content
same_text_iff none content h = absurd (ground arith)
same_text_iff (some text) content h = ap some ((eq_iff _ _).0 h)

stays_stale : (b : Bool) → false ≡ (not b && false)
stays_stale true = refl
stays_stale false = refl

module _ {D : Type 0} (fs : FileSystem D) where
  abbrev pub is_current : D → Output → Bool
  is_current d o = same_text (fs.read d o.path) o.content

  abbrev pub Holds : D → Output → Type 0
  Holds d o = fs.read d o.path ≡ some o.content

  -- what a check ends with
  abbrev pub verdict : Bool → ℕ
  verdict true = 0
  verdict false = 1

  pub emit-check :
      (outputs : List Output) (stale : Bool) (log : List String) (d : D)
      → ((emit fs true outputs stale log d).disk ≡ d)
        × ((emit fs true outputs stale log d).exit
            ≡ verdict (not stale && all (is_current d) outputs))
  unfolding emit
  emit-check [] true log d = (refl, refl)
  emit-check [] false log d = (refl, refl)
  emit-check (o ∷ outputs) stale log d = elim (Bool-cases (is_current d o)) [
    | inl e ↦ rw e (emit-check outputs stale log d)
    | inr e ↦ rw e (
        let (same, code) = emit-check outputs true _ d in
        (same, code ∙ ap verdict (stays_stale stale)))
  ]

  -- a disk on which every output is there is left as it is
  pub emit-current :
      (outputs : List Output) (log : List String) (d : D)
      → All (Holds d) outputs
      → (((emit fs false outputs false log d).disk ≡ d)
          × ((emit fs false outputs false log d).exit ≡ 0))
        × (all (is_current d) outputs ≡ true)
  unfolding emit
  emit-current [] log d h = ((refl, refl), refl)
  emit-current (o ∷ outputs) log d h =
      let e : is_current d o ≡ true = rw h.0 (eq_refl o.content) in
      rw e (emit-current outputs _ d h.1)

  after_write-ok :
      (path : String) (next : List String → D → Ended D) (log : List String) (w : Bool × D)
      → (after_write fs path next log w).exit ≡ 0
      → (d : D) × (w ≡ (true, d))
        × (after_write fs path next log w ≡ next (logged log ("codegen: wrote " ∷ path ∷ [])) d)
  after_write-ok path next log (true, d) e = (d, refl, refl)
  after_write-ok path next log (false, d) e = absurd (omega (arith, e))

  -- Every output has a path of its own.
  abbrev pub AreApart : List Output → Type 0
  AreApart [] = Unit
  AreApart (o ∷ outputs) = All (λ u. u.path ≢ o.path) outputs × AreApart outputs

  module _ (laws : FileLaws fs) where
    module _ (r : Ended D) (e : r.exit ≡ 0) where
      -- what `q` has on a disk is not changed by the outputs of other paths
      pub emit-other :
          (q : String) (outputs : List Output) (log : List String) (d : D)
          → All (λ o. o.path ≢ q) outputs
          → emit fs false outputs false log d ≡ r
          → fs.read r.disk q ≡ fs.read d q
      unfolding emit
      emit-other q [] log d h p = ap (λ r. fs.read r.disk q) (sym p)
      emit-other q (o ∷ outputs) log d h p = elim (Bool-cases (is_current d o)) [
        | inl f ↦ emit-other q outputs _ d h.1 (rw f at p)
        | inr f ↦
            let (d', g, k) =
              after_write-ok o.path (λ log d. emit fs false outputs false log d) log
                (fs.write o.path o.content d) (ap (λ r. r.exit) (rw f at p) ∙ e) in
            emit-other q outputs _ d' h.1 (sym k ∙ rw f at p)
            ∙ laws.kept o.path q o.content d d' g h.0
      ]

      pub emit-Holds :
          (outputs : List Output) (log : List String) (d : D)
          → AreApart outputs
          → emit fs false outputs false log d ≡ r
          → All (Holds r.disk) outputs
      unfolding emit
      emit-Holds [] log d h p = tt
      emit-Holds (o ∷ outputs) log d h p = elim (Bool-cases (is_current d o)) [
        | inl f ↦
            let rest = rw f at p in
            (
              emit-other o.path outputs _ d h.0 rest ∙ same_text_iff (fs.read d o.path) o.content f,
              emit-Holds outputs _ d h.1 rest,
            )
        | inr f ↦
            let (d', g, k) =
              after_write-ok o.path (λ log d. emit fs false outputs false log d) log
                (fs.write o.path o.content d) (ap (λ r. r.exit) (rw f at p) ∙ e) in
            let rest = sym k ∙ rw f at p in
            (
              emit-other o.path outputs _ d' h.0 rest ∙ laws.written o.path o.content d d' g,
              emit-Holds outputs _ d' h.1 rest,
            )
      ]
