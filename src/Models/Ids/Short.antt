-- ===== src/Models/Ids/Short.antt =====
-- The display form of type-prefixed ids.
use foxplay_game.Common.{
  ℕ, zero, suc, String, true, ◌≡◌, refl, ap, ◌∙◌, sym, List, [], ◌∷◌, ◌++◌, some, arith, codes,
  length, all, take, All, ◌≢◌,
}
use foxplay_game.Models.{
  is_lower, is_hex, later_groups, uuid_tail, is_prefixed_id, drop_prefix, starts_lower, short_id,
}
use foxplay_game.Models.Ids.{match_classes-literals, match_classes-Block}
use mathlib.Core.Path.{subst}
use mathlib.Core.Bool.{and-eq-true_iff}

drop_prefix-letters :
    (ps rest : List ℕ) → all is_lower ps ≡ true → drop_prefix (ps ++ b'-' ∷ rest) ≡ some rest
unfolding drop_prefix is_lower
drop_prefix-letters [] rest h = refl
drop_prefix-letters (p ∷ ps) rest h = ground (arith, drop_prefix-letters ps rest)

take-append : (n : ℕ) (h rest : List ℕ) → length h ≡ n → take n (h ++ rest) ≡ h
take-append zero [] rest e = refl
take-append zero (x ∷ h) rest e = absurd (omega arith)
take-append (suc n) [] rest e = absurd (omega arith)
take-append (suc n) (x ∷ h) rest e = ap (λ l. x ∷ l) (take-append n h rest (omega arith))

short_id-drop_prefix :
    (id rest : List ℕ)
    → starts_lower id ≡ true
    → drop_prefix id ≡ some rest
    → short_id id ≡ take 8 rest
unfolding short_id
short_id-drop_prefix id rest low e = ground arith

short_id-letters :
    (p : ℕ) (ps h rest : List ℕ)
    → all is_lower (p ∷ ps) ≡ true
    → length h ≡ 8
    → short_id (p ∷ ps ++ (b'-' ∷ (h ++ rest))) ≡ h
short_id-letters p ps h rest low len =
    short_id-drop_prefix (p ∷ ps ++ (b'-' ∷ (h ++ rest))) (h ++ rest)
      ((and-eq-true_iff (is_lower p) _).0 low).0 (drop_prefix-letters (p ∷ ps) (h ++ rest) low)
    ∙ take-append 8 h rest len

-- The display form of an accepted id is the first block of its UUID, eight hexadecimal digits,
-- and the id is its prefix, a dash, that block and the rest. The prefix is lower-case letters,
-- at least one.
pub short_id-is_prefixed_id :
    (prefix s : String)
    → codes prefix ≢ []
    → all is_lower (codes prefix) ≡ true
    → is_prefixed_id prefix s ≡ true
    → (rest : List ℕ) × (codes s ≡ codes prefix ++ (b'-' ∷ (short_id (codes s) ++ rest)))
      × (length (short_id (codes s)) ≡ 8)
      × All (λ c. is_hex c ≡ true) (short_id (codes s))
unfolding is_prefixed_id uuid_tail
short_id-is_prefixed_id prefix s some_letter low m =
    let (tail, e, more) = match_classes-literals (codes prefix) uuid_tail (codes s) m in
    let (h, rest, split, len, hex, _) = match_classes-Block 8 later_groups tail more in
    let whole : codes s ≡ codes prefix ++ (b'-' ∷ (h ++ rest)) = cc in
    let now : short_id (codes s) ≡ h =
      ap short_id whole ∙ shown (codes prefix) h rest some_letter low len in
    (
      rest,
      whole ∙ sym (ap (λ x. codes prefix ++ (b'-' ∷ (x ++ rest))) now),
      ap length now ∙ len,
      subst (All (λ c. is_hex c ≡ true)) (sym now) hex,
    )
  where
    shown :
        (ps h rest : List ℕ)
        → ps ≢ []
        → all is_lower ps ≡ true
        → length h ≡ 8
        → short_id (ps ++ (b'-' ∷ (h ++ rest))) ≡ h
    shown [] h rest ne low len = absurd (ne refl)
    shown (p ∷ ps) h rest ne low len = short_id-letters p ps h rest low len
