-- ===== src/Models/Ids.antt =====
-- Type-prefixed ids: their parts, and which prefix an id has.
pub mod Short
use foxplay_game.Common.{
  ℕ, zero, suc, String, Bool, true, ◌≡◌, refl, ap, ◌∙◌, List, [], ◌∷◌, ◌++◌, map, arith, ◌==◌,
  ==_iff, codes, length, all, All, All-append,
}
use foxplay_game.Models.{
  is_lower, is_hex, is_name_char, is_dash, match_classes, times, later_groups, uuid_tail,
  is_prefixed_id,
}
use mathlib.Core.Bool.{and-eq-true_iff}

abbrev pub literal : ℕ → ℕ → Bool
literal p c = c == p

-- A match begins with the literal characters.
pub match_classes-literals :
    (ps : List ℕ) (qs : List (ℕ → Bool)) (cs : List ℕ)
    → match_classes (map literal ps ++ qs) cs ≡ true
    → (rest : List ℕ) × (cs ≡ ps ++ rest) × (match_classes qs rest ≡ true)
unfolding match_classes
match_classes-literals [] qs cs h = (cs, refl, h)
match_classes-literals (p ∷ ps) qs [] h = cc
match_classes-literals (p ∷ ps) qs (c ∷ cs) h =
    let (same, more) = (and-eq-true_iff (c == p) _).0 h in
    let (rest, e, m) = match_classes-literals ps qs cs more in
    let head : c ≡ p = (==_iff c p).0 same in (rest, cc, m)

-- `{n}` hexadecimal digits stand in front of what the rest matches.
match_classes-times :
    (n : ℕ) (qs : List (ℕ → Bool)) (cs : List ℕ)
    → match_classes (times n qs) cs ≡ true
    → (h rest : List ℕ) × (cs ≡ h ++ rest)
      × (length h ≡ n)
      × All (λ c. is_hex c ≡ true) h
      × (match_classes qs rest ≡ true)
unfolding match_classes times
match_classes-times zero qs cs m = ([], cs, refl, refl, tt, m)
match_classes-times (suc n) qs [] m = cc
match_classes-times (suc n) qs (c ∷ cs) m =
    let (hex, more) = (and-eq-true_iff (is_hex c) _).0 m in
    let (h, rest, e, len, all_hex, tail) = match_classes-times n qs cs more in
    (c ∷ h, rest, ap (λ l. c ∷ l) e, ap suc len, (hex, all_hex), tail)

match_classes-dash :
    (qs : List (ℕ → Bool)) (cs : List ℕ)
    → match_classes (is_dash ∷ qs) cs ≡ true
    → (rest : List ℕ) × (cs ≡ b'-' ∷ rest) × (match_classes qs rest ≡ true)
unfolding match_classes
match_classes-dash qs [] h = cc
match_classes-dash qs (c ∷ cs) h =
    let (same, more) = (and-eq-true_iff (c == b'-') _).0 h in
    let head : c ≡ b'-' = (==_iff c b'-').0 same in (cs, ap (λ x. x ∷ cs) head, more)

-- An accepted id begins with its prefix, a dash, and a block that the next pattern describes.
abbrev pub Block : ℕ → List (ℕ → Bool) → List ℕ → Type 0
Block n qs cs =
    (h rest : List ℕ) × (cs ≡ b'-' ∷ (h ++ rest))
    × (length h ≡ n)
    × All (λ c. is_hex c ≡ true) h
    × (match_classes qs rest ≡ true)

pub match_classes-Block :
    (n : ℕ) (qs : List (ℕ → Bool)) (cs : List ℕ)
    → match_classes (is_dash ∷ times n qs) cs ≡ true
    → Block n qs cs
match_classes-Block n qs cs m =
    let (rest, e, more) = match_classes-dash (times n qs) cs m in
    let (h, tail, split, len, hex, next) = match_classes-times n qs rest more in
    (h, tail, e ∙ ap (λ l. b'-' ∷ l) split, len, hex, next)

is_hex-is_name_char : (c : ℕ) → is_hex c ≡ true → is_name_char c ≡ true
unfolding is_hex is_name_char
is_hex-is_name_char c h = ground arith

is_lower-is_name_char : (c : ℕ) → is_lower c ≡ true → is_name_char c ≡ true
unfolding is_lower is_name_char
is_lower-is_name_char c h = ground arith

abbrev IsUrlSafe : List ℕ → Type 0
IsUrlSafe = All (λ c. is_name_char c ≡ true)

hex-IsUrlSafe : (cs : List ℕ) → All (λ c. is_hex c ≡ true) cs → IsUrlSafe cs
hex-IsUrlSafe [] h = tt
hex-IsUrlSafe (c ∷ cs) h = (is_hex-is_name_char c h.0, hex-IsUrlSafe cs h.1)

lower-IsUrlSafe : (cs : List ℕ) → all is_lower cs ≡ true → IsUrlSafe cs
lower-IsUrlSafe [] h = tt
lower-IsUrlSafe (c ∷ cs) h =
    let (low, more) = (and-eq-true_iff (is_lower c) _).0 h in
    (is_lower-is_name_char c low, lower-IsUrlSafe cs more)

-- A block is safe if what follows it is.
block-IsUrlSafe :
    (n : ℕ) (qs : List (ℕ → Bool))
    → ((rest : List ℕ) → match_classes qs rest ≡ true → IsUrlSafe rest)
    → (cs : List ℕ) → match_classes (is_dash ∷ times n qs) cs ≡ true
    → IsUrlSafe cs
unfolding is_name_char
block-IsUrlSafe n qs next cs m =
    let (h, rest, e, _, hex, more) = match_classes-Block n qs cs m in
    rw e (refl, All-append _ h rest (hex-IsUrlSafe h hex) (next rest more))

nothing-IsUrlSafe : (cs : List ℕ) → match_classes [] cs ≡ true → IsUrlSafe cs
unfolding match_classes
nothing-IsUrlSafe [] h = tt
nothing-IsUrlSafe (c ∷ cs) h = cc

uuid_tail-IsUrlSafe : (cs : List ℕ) → match_classes uuid_tail cs ≡ true → IsUrlSafe cs
unfolding uuid_tail later_groups
uuid_tail-IsUrlSafe = block-IsUrlSafe 8 _ (
    block-IsUrlSafe 4 _
      (block-IsUrlSafe 4 _ (block-IsUrlSafe 4 _ (block-IsUrlSafe 12 _ nothing-IsUrlSafe))))

-- An accepted id consists of lower-case letters, digits and dashes, whatever lower-case prefix it
-- was checked for.
pub is_prefixed_id-IsUrlSafe :
    (prefix s : String)
    → all is_lower (codes prefix) ≡ true
    → is_prefixed_id prefix s ≡ true
    → All (λ c. is_name_char c ≡ true) (codes s)
unfolding is_prefixed_id
is_prefixed_id-IsUrlSafe prefix s low m =
    let (rest, e, more) = match_classes-literals (codes prefix) uuid_tail (codes s) m in
    rw e (All-append _ (codes prefix) rest (lower-IsUrlSafe _ low) (uuid_tail-IsUrlSafe rest more))

-- Where two texts of letters are each followed by a dash and the wholes agree, they are equal.
prefix-injective :
    (ps qs xs ys : List ℕ)
    → all is_lower ps ≡ true
    → all is_lower qs ≡ true
    → ps ++ b'-' ∷ xs ≡ qs ++ b'-' ∷ ys
    → ps ≡ qs
unfolding is_lower
prefix-injective [] [] xs ys hp hq e = refl
prefix-injective [] (q ∷ qs) xs ys hp hq e = absurd (ground arith)
prefix-injective (p ∷ ps) [] xs ys hp hq e = absurd (ground arith)
prefix-injective (p ∷ ps) (q ∷ qs) xs ys hp hq e = ground (arith, prefix-injective ps qs xs ys)

-- No text is accepted as an id of two kinds: two lower-case prefixes that accept one text are
-- the same prefix.
pub is_prefixed_id_unique :
    (p q s : String)
    → all is_lower (codes p) ≡ true
    → all is_lower (codes q) ≡ true
    → is_prefixed_id p s ≡ true
    → is_prefixed_id q s ≡ true
    → codes p ≡ codes q
unfolding is_prefixed_id uuid_tail
is_prefixed_id_unique p q s lp lq mp mq =
    let (xs, ex, tail_p) = match_classes-literals (codes p) uuid_tail (codes s) mp in
    let (ys, ey, tail_q) = match_classes-literals (codes q) uuid_tail (codes s) mq in
    let (xs', dx, _) = match_classes-dash (times 8 later_groups) xs tail_p in
    let (ys', dy, _) = match_classes-dash (times 8 later_groups) ys tail_q in
    prefix-injective (codes p) (codes q) xs' ys' lp lq (cc)
