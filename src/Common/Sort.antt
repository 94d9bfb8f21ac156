-- ===== src/Common/Sort.antt =====
-- A stable sort by a number, largest first: `xs.sort((a, b) => key(b) - key(a))`, and the
-- `ORDER BY … DESC` of the queries.
use Prim.Native.Nat.{ℕ, suc, ◌≤◌}
use mathlib.Core.Path.{◌≡◌, refl, ap, ◌∙◌}
use mathlib.Core.List.{List, [], ◌∷◌, Perm}
use mathlib.Core.List.Perm
use foxplay_game.Common.Order.{Reordered, Reordered-refl, IsSortedDesc}
use native.Mathlib.Omega.{arith}
use foxplay_game.Common.Tests.{leb, leb_iff, if◌then◌else◌, Bool-cases}
use foxplay_game.Common.Lists.{All, All-imp, length}
use mathlib.Core.Logic.{inl, inr}

module _ {A : Type 0} (key : A → ℕ) where
  pub insert_desc : A → List A → List A
  insert_desc x [] = x ∷ []
  insert_desc x (y ∷ ys) = if leb (key y) (key x) then x ∷ y ∷ ys else y ∷ insert_desc x ys

  unfoldable pub sort_desc : List A → List A
  unfolding insert_desc
  sort_desc [] = []
  sort_desc (x ∷ xs) = insert_desc x (sort_desc xs)

  All-insert_desc :
      (P : A → Type 0) (x : A) (ys : List A) → P x → All P ys → All P (insert_desc x ys)
  unfolding insert_desc
  All-insert_desc P x [] p h = (p, tt)
  All-insert_desc P x (y ∷ ys) p h = elim (Bool-cases (leb (key y) (key x))) [
    | inl e ↦ rw e (p, h)
    | inr e ↦ rw e (h.0, All-insert_desc P x ys p h.1)
  ]

  pub All-sort_desc : (P : A → Type 0) (xs : List A) → All P xs → All P (sort_desc xs)
  unfolding sort_desc
  All-sort_desc P [] h = tt
  All-sort_desc P (x ∷ xs) h = All-insert_desc P x (sort_desc xs) h.0 (All-sort_desc P xs h.1)

  insert_desc-IsSortedDesc :
      (x : A) (ys : List A) → IsSortedDesc key ys → IsSortedDesc key (insert_desc x ys)
  unfolding insert_desc
  insert_desc-IsSortedDesc x [] s = (tt, tt)
  insert_desc-IsSortedDesc x (y ∷ ys) s = elim (Bool-cases (leb (key y) (key x))) [
    | inl e ↦
        let le : key y ≤ key x = (leb_iff _ _).0 e in
        rw e ((le, All-imp (λ z h. omega (arith, h, le)) ys s.0), s)
    | inr e ↦ rw e (
      All-insert_desc (λ z. key z ≤ key y) x ys (ground arith) s.0,
      insert_desc-IsSortedDesc x ys s.1,
    )
  ]

  pub sort_desc-IsSortedDesc : (xs : List A) → IsSortedDesc key (sort_desc xs)
  unfolding sort_desc
  sort_desc-IsSortedDesc [] = tt
  sort_desc-IsSortedDesc (x ∷ xs) =
      insert_desc-IsSortedDesc x (sort_desc xs) (sort_desc-IsSortedDesc xs)

  insert_desc-perm : (x : A) (ys : List A) → Perm (insert_desc x ys) (x ∷ ys)
  unfolding insert_desc
  insert_desc-perm x [] = Perm.refl _
  insert_desc-perm x (y ∷ ys) = elim (Bool-cases (leb (key y) (key x))) [
    | inl e ↦ rw e (Perm.refl _)
    | inr e ↦ rw e (Perm.trans (Perm.cons y (insert_desc-perm x ys)) (Perm.swap x y ys))
  ]

  pub sort_desc-perm : (xs : List A) → Perm (sort_desc xs) xs
  unfolding sort_desc
  sort_desc-perm [] = Perm.refl _
  sort_desc-perm (x ∷ xs) =
      Perm.trans (insert_desc-perm x (sort_desc xs)) (Perm.cons x (sort_desc-perm xs))

  length-insert_desc : (x : A) (ys : List A) → length (insert_desc x ys) ≡ suc (length ys)
  unfolding insert_desc
  length-insert_desc x [] = refl
  length-insert_desc x (y ∷ ys) = elim (Bool-cases (leb (key y) (key x))) [
    | inl e ↦ rw e refl
    | inr e ↦ rw e (ap suc (length-insert_desc x ys))
  ]

  pub length-sort_desc : (xs : List A) → length (sort_desc xs) ≡ length xs
  unfolding sort_desc
  length-sort_desc [] = refl
  length-sort_desc (x ∷ xs) = length-insert_desc x (sort_desc xs) ∙ ap suc (length-sort_desc xs)

  All-insert_desc-back :
      (P : A → Type 0) (x : A) (ys : List A) → All P (insert_desc x ys) → All P (x ∷ ys)
  unfolding insert_desc
  All-insert_desc-back P x [] h = h
  All-insert_desc-back P x (y ∷ ys) h = elim (Bool-cases (leb (key y) (key x))) [
    | inl e ↦ rw e at h
    | inr e ↦
        let split : P y × All P (insert_desc x ys) = rw e at h in
        let rest = All-insert_desc-back P x ys split.1 in (rest.0, (split.0, rest.1))
  ]

  pub All-sort_desc-back : (P : A → Type 0) (xs : List A) → All P (sort_desc xs) → All P xs
  unfolding sort_desc
  All-sort_desc-back P [] h = tt
  All-sort_desc-back P (x ∷ xs) h =
      let both = All-insert_desc-back P x (sort_desc xs) h in
      (both.0, All-sort_desc-back P xs both.1)

  -- What a database promises of `ORDER BY … DESC`: the same rows, sorted. The order of rows with equal
  -- keys is left open.
  pub record IsOrderDesc (order : List A → List A) : Type 0 where
    pub sorted : (xs : List A) → IsSortedDesc key (order xs)
    pub same : (xs : List A) → Reordered (order xs) xs

  insert_desc_permutes : (x : A) (ys : List A) → Reordered (insert_desc x ys) (x ∷ ys)
  unfolding insert_desc
  insert_desc_permutes x [] = Reordered-refl _
  insert_desc_permutes x (y ∷ ys) = elim (Bool-cases (leb (key y) (key x))) [
    | inl e ↦ rw e (Reordered-refl _)
    | inr e ↦
        rw e
          (Reordered.trans (Reordered.cons y (insert_desc_permutes x ys)) (Reordered.swap x y ys))
  ]

  sort_desc_permutes : (xs : List A) → Reordered (sort_desc xs) xs
  unfolding sort_desc
  sort_desc_permutes [] = Reordered-refl _
  sort_desc_permutes (x ∷ xs) =
      Reordered.trans (insert_desc_permutes x (sort_desc xs))
        (Reordered.cons x (sort_desc_permutes xs))

  -- The stable sort is one such order.
  pub sort_desc-IsOrderDesc : IsOrderDesc sort_desc
  sort_desc-IsOrderDesc = record { sorted = sort_desc-IsSortedDesc; same = sort_desc_permutes }
