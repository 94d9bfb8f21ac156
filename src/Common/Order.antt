-- ===== src/Common/Order.antt =====
-- Permuted lists: what holds of one holds of the other, and where no two keys are equal there is one
-- way to sort them.
use Prim.Native.Nat.{ℕ, suc, ◌≤◌, ◌<◌}
use mathlib.Core.Path.{◌≡◌, refl, sym, ap, ◌∙◌, subst}
use mathlib.Core.Logic.{◌≢◌}
use mathlib.Core.List.{List, [], ◌∷◌}
use native.Mathlib.Omega.{arith}
use foxplay_game.Common.Lists.{All, All-imp, length}

module _ {A : Type 0} where
  -- The second list has the elements of the first, in any order.
  pub data Reordered : List A → List A → Type 0 where
    nil : Reordered [] []
    cons : (x : A) {xs ys : List A} → Reordered xs ys → Reordered (x ∷ xs) (x ∷ ys)
    swap : (x y : A) (xs : List A) → Reordered (y ∷ x ∷ xs) (x ∷ y ∷ xs)
    trans : {xs ys zs : List A} → Reordered xs ys → Reordered ys zs → Reordered xs zs

  pub Reordered-refl : (xs : List A) → Reordered xs xs
  Reordered-refl [] = Reordered.nil
  Reordered-refl (x ∷ xs) = Reordered.cons x (Reordered-refl xs)

  Reordered-sym : {xs ys : List A} → Reordered xs ys → Reordered ys xs
  Reordered-sym Reordered.nil = Reordered.nil
  Reordered-sym (Reordered.cons x d) = Reordered.cons x (Reordered-sym d)
  Reordered-sym (Reordered.swap x y xs) = Reordered.swap y x xs
  Reordered-sym (Reordered.trans d e) = Reordered.trans (Reordered-sym e) (Reordered-sym d)

  pub All_permuted : (P : A → Type 0) {xs ys : List A} → Reordered xs ys → All P xs → All P ys
  All_permuted P Reordered.nil h = tt
  All_permuted P (Reordered.cons x d) h = (h.0, All_permuted P d h.1)
  All_permuted P (Reordered.swap x y xs) h = (h.1.0, (h.0, h.1.1))
  All_permuted P (Reordered.trans d e) h = All_permuted P e (All_permuted P d h)

  pub length_permuted : {xs ys : List A} → Reordered xs ys → length xs ≡ length ys
  length_permuted Reordered.nil = refl
  length_permuted (Reordered.cons x d) = ap suc (length_permuted d)
  length_permuted (Reordered.swap x y xs) = refl
  length_permuted (Reordered.trans d e) = length_permuted d ∙ length_permuted e

module _ {A : Type 0} (key : A → ℕ) where
  -- Every element is followed only by elements whose key is no larger.
  abbrev pub IsSortedDesc : List A → Type 0
  IsSortedDesc [] = Unit
  IsSortedDesc (x ∷ xs) = All (λ y. key y ≤ key x) xs × IsSortedDesc xs

  -- No two elements have one key.
  abbrev pub AreDistinct : List A → Type 0
  AreDistinct [] = Unit
  AreDistinct (x ∷ xs) = All (λ y. key y ≢ key x) xs × AreDistinct xs

  AreDistinct-permuted : {xs ys : List A} → Reordered xs ys → AreDistinct xs → AreDistinct ys
  AreDistinct-permuted Reordered.nil h = tt
  AreDistinct-permuted (Reordered.cons x d) h = (All_permuted _ d h.0, AreDistinct-permuted d h.1)
  AreDistinct-permuted (Reordered.swap x y xs) h = ((λ e. h.0.0 (sym e), h.1.0), (h.0.1, h.1.1))
  AreDistinct-permuted (Reordered.trans d e) h = AreDistinct-permuted e (AreDistinct-permuted d h)

  -- Each element is followed only by elements whose key is smaller.
  abbrev IsStrict : List A → Type 0
  IsStrict [] = Unit
  IsStrict (x ∷ xs) = All (λ y. key y < key x) xs × IsStrict xs

  strictly :
      (x : A) (ys : List A)
      → All (λ y. key y ≤ key x) ys
      → All (λ y. key y ≢ key x) ys
      → All (λ y. key y < key x) ys
  strictly x [] h k = tt
  strictly x (y ∷ ys) h k =
      let le = h.0 in let ne = k.0 in (omega (arith, le, ne), strictly x ys h.1 k.1)

  sorted-IsStrict : (xs : List A) → IsSortedDesc xs → AreDistinct xs → IsStrict xs
  sorted-IsStrict [] h k = tt
  sorted-IsStrict (x ∷ xs) h k = (strictly x xs h.0 k.0, sorted-IsStrict xs h.1 k.1)

  -- the same elements, as far as a property can tell
  abbrev Alike : List A → List A → Type 1
  Alike xs ys = (P : A → Type 0) → (All P xs → All P ys) × (All P ys → All P xs)

  above :
      (x : A) (P : A → Type 0) (xs : List A)
      → All (λ y. key y < key x) xs
      → All P xs
      → All (λ z. key z ≢ key x → P z) xs
  above x P [] h k = tt
  above x P (z ∷ xs) h k = (λ _. k.0, above x P xs h.1 k.1)

  below :
      (x : A) (P : A → Type 0) (xs : List A)
      → All (λ y. key y < key x) xs
      → All (λ z. key z ≢ key x → P z) xs
      → All P xs
  below x P [] h k = tt
  below x P (z ∷ xs) h k = let lt = h.0 in (k.0 (λ e. omega (arith, lt, e)), below x P xs h.1 k.1)

  behind :
      (x : A) (xs ys : List A)
      → All (λ y. key y < key x) xs
      → All (λ y. key y < key x) ys
      → Alike (x ∷ xs) (x ∷ ys)
      → Alike xs ys
  behind x xs ys h k same P = (
    λ a.
        below x P ys k
          ((same (λ z. key z ≢ key x → P z)).0 (λ ne. absurd (ne refl), above x P xs h a)).1,
    λ a.
        below x P xs h
          ((same (λ z. key z ≢ key x → P z)).1 (λ ne. absurd (ne refl), above x P ys k a)).1,
  )

  only : (y : A) (ys : List A) → All (λ z. key z < key y) ys → All (λ z. key z ≡ key y → z ≡ y) ys
  only y [] h = tt
  only y (z ∷ ys) h = let lt = h.0 in (λ e. absurd (omega (arith, lt, e)), only y ys h.1)

  strict_unique : (xs ys : List A) → IsStrict xs → IsStrict ys → Alike xs ys → xs ≡ ys
  strict_unique [] [] h k same = refl
  strict_unique [] (y ∷ ys) h k same = absurd ((same (λ _. ⊥)).0 tt).0
  strict_unique (x ∷ xs) [] h k same = absurd ((same (λ _. ⊥)).1 tt).0
  strict_unique (x ∷ xs) (y ∷ ys) h k same =
      let le : key x ≤ key y =
        ((same (λ z. key z ≤ key y)).1
          (omega arith, All-imp (λ z lt. omega (arith, lt)) ys k.0)).0 in
      let ge : key y ≤ key x =
        ((same (λ z. key z ≤ key x)).0
          (omega arith, All-imp (λ z lt. omega (arith, lt)) xs h.0)).0 in
      let head : x ≡ y =
        ((same (λ z. key z ≡ key y → z ≡ y)).1 (λ _. refl, only y ys k.0)).0
          (omega (arith, le, ge)) in
      let near = subst (λ c. All (λ z. key z < key c) ys) (sym head) k.0 in
      let tails =
        strict_unique xs ys h.1 k.1
          (behind x xs ys h.0 near (subst (λ c. Alike (x ∷ xs) (c ∷ ys)) (sym head) same)) in
      ap (λ c. c ∷ xs) head ∙ ap (λ l. y ∷ l) tails

  -- Where no two keys are equal, two sorted permutations of a list are equal.
  pub sorted_unique :
      (zs xs ys : List A)
      → AreDistinct zs
      → Reordered xs zs
      → Reordered ys zs
      → IsSortedDesc xs
      → IsSortedDesc ys
      → xs ≡ ys
  sorted_unique zs xs ys apart p q h k =
      let to_xs = Reordered-sym p in
      let to_ys = Reordered-sym q in
      strict_unique xs ys (sorted-IsStrict xs h (AreDistinct-permuted to_xs apart))
        (sorted-IsStrict ys k (AreDistinct-permuted to_ys apart))
        (λ P. (
          λ a. All_permuted P to_ys (All_permuted P p a),
          λ a. All_permuted P to_xs (All_permuted P q a),
        ))
