-- ===== src/Registry/Laws.antt =====
-- The invariant of a table of labelled rows, and the statements that keep it.
use mathlib.Core.Path.{subst}
use foxplay_game.Common.{
  ℕ, String, false, ◌≡◌, ◌≢◌, sym, List, [], ◌∷◌, eq_iff, any, All, arith, Bool-cases, inl, inr,
  if◌then◌else◌,
}
use foxplay_game.Server.{ok}
use foxplay_game.Registry.{Labelled, clash, insert, is_live_id, retire_rows, live_rows}

module _ {R : Type 0} (l : Labelled R) where
  -- No two rows share an id, no two live rows share an owner and a name.
  abbrev pub IsUnique : List R → Type 0
  IsUnique [] = Unit
  IsUnique (r ∷ rows) = All (λ q. clash l r q ≡ false) rows × IsUnique rows

  any-clash :
      (r : R) (rows : List R) → any (clash l r) rows ≡ false → All (λ q. clash l r q ≡ false) rows
  any-clash r [] h = tt
  any-clash r (q ∷ rows) h = (ground arith, any-clash r rows (ground arith))

  pub insert-IsUnique :
      (r : R) (rows rows' : List R)
      → insert l r rows ≡ ok rows'
      → IsUnique rows
      → (rows' ≡ r ∷ rows) × IsUnique rows'
  unfolding insert
  insert-IsUnique r rows rows' h u = elim (Bool-cases (any (clash l r) rows)) [
    | inl e ↦ absurd (ground arith)
    | inr e ↦
        let front : rows' ≡ r ∷ rows = ground arith in
        (front, subst IsUnique (sym front) (any-clash r rows e, u))
  ]

  clash-retire :
      (r q : R) (now : ℕ)
      → clash l r q ≡ false
      → (clash l r (l.retire now q) ≡ false) × (clash l (l.retire now r) q ≡ false)
  unfolding clash
  clash-retire r q now h = (
    rw (l.retire_id now q, l.retire_dead now q) (ground arith),
    rw (l.retire_id now r, l.retire_dead now r) (ground arith),
  )

  maybe : String → ℕ → R → R
  maybe id now r = if is_live_id l id r then l.retire now r else r

  clash-maybe :
      (r q : R) (id : String) (now : ℕ)
      → clash l r q ≡ false
      → clash l (maybe id now r) (maybe id now q) ≡ false
  unfolding maybe
  clash-maybe r q id now h = elim (Bool-cases (is_live_id l id r)) [
    | inl e ↦ elim (Bool-cases (is_live_id l id q)) [
      | inl f ↦ rw (e, f) ((clash-retire (l.retire now r) q now (clash-retire r q now h).1).0)
      | inr f ↦ rw (e, f) ((clash-retire r q now h).1)
    ]
    | inr e ↦ elim (Bool-cases (is_live_id l id q)) [
      | inl f ↦ rw (e, f) ((clash-retire r q now h).0)
      | inr f ↦ rw (e, f) h
    ]
  ]

  retire_rows-apart :
      (r : R) (rows : List R) (id : String) (now : ℕ)
      → All (λ q. clash l r q ≡ false) rows
      → All (λ q. clash l (maybe id now r) q ≡ false) (retire_rows l id now rows)
  unfolding retire_rows maybe
  retire_rows-apart r [] id now h = tt
  retire_rows-apart r (q ∷ rows) id now h =
      (clash-maybe r q id now h.0, retire_rows-apart r rows id now h.1)

  pub retire_rows-IsUnique :
      (rows : List R) (id : String) (now : ℕ) → IsUnique rows → IsUnique (retire_rows l id now rows)
  unfolding retire_rows maybe
  retire_rows-IsUnique [] id now u = tt
  retire_rows-IsUnique (r ∷ rows) id now u =
      (retire_rows-apart r rows id now u.0, retire_rows-IsUnique rows id now u.1)

  -- No row that is live after a deletion has the id.
  pub retire_rows-gone :
      (rows : List R) (id : String) (now : ℕ)
      → All (λ r. l.id_of r ≢ id) (live_rows l (retire_rows l id now rows))
  unfolding retire_rows
  retire_rows-gone [] id now = tt
  retire_rows-gone (r ∷ rows) id now = elim (Bool-cases (is_live_id l id r)) [
    | inl e ↦ rw (e, l.retire_dead now r) (retire_rows-gone rows id now)
    | inr e ↦ elim (Bool-cases (l.is_live r)) [
      | inl live ↦
          rw (e, live) (ground (arith, eq_iff (l.id_of r) id), retire_rows-gone rows id now)
      | inr dead ↦ rw (e, dead) (retire_rows-gone rows id now)
    ]
  ]
