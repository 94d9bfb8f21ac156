-- ===== src/Controller/Names.antt =====
-- controller/src/AlphanumericalGenerator.ts: the random part of a container's name. `draw` gives
-- `Math.floor(Math.random() * characters.length)`, with what the next call draws from.
use Prim.Native.String
use Prim.Native.Char.{code}
use foxplay_game.Common.{
  ℕ, zero, suc, ◌+◌, ◌<◌, String, Bool, true, false, ◌&&◌, ◌||◌, ◌≡◌, refl, ap, ◌∙◌, List, [], ◌∷◌,
  ◌++◌, arith, all, length, length-append, codes, codes-append,
}
use foxplay_game.Models.{between}

unfoldable pub alphabet : String
alphabet = "ABCDEFGHIJKLMNOPQRSTUVWXYZabcdefghijklmnopqrstuvwxyz0123456789"

-- `charAt`, empty past the end
unfoldable pub char_at : ℕ → String → String
char_at i String.[] = ""
char_at zero (String.◌∷◌ c s) = String.◌∷◌ c ""
char_at (suc i) (String.◌∷◌ c s) = char_at i s

module _ {S : Type 0} (draw : S → ℕ × S) where
  -- the loop, with the rounds that are left
  unfoldable pub random_from : ℕ → String → S → String × S
  unfolding char_at alphabet
  random_from zero result s = (result, s)
  random_from (suc n) result s =
      let (i, s') = draw s in random_from n (String.◌++◌ result (char_at i alphabet)) s'

  unfoldable pub generate_random_string : ℕ → S → String × S
  unfolding random_from
  generate_random_string n s = random_from n "" s

  -- what that many draws leave
  abbrev pub after_draws : ℕ → S → S
  after_draws zero s = s
  after_draws (suc n) s = after_draws n (draw s).1

-- `[A-Za-z0-9]`
abbrev pub is_alphanumeric : ℕ → Bool
is_alphanumeric c = between b'A' b'Z' c || between b'a' b'z' c || between b'0' b'9' c

abbrev is_one : String → Bool
is_one String.[] = false
is_one (String.◌∷◌ c String.[]) = is_alphanumeric (code c)
is_one (String.◌∷◌ c (String.◌∷◌ d s)) = false

abbrev ones : ℕ → Bool
ones zero = true
ones (suc n) = ones n && is_one (char_at n alphabet)

ones_at : (i n : ℕ) → i < n → ones n ≡ true → is_one (char_at i alphabet) ≡ true
ones_at i zero lt h = absurd (omega arith)
ones_at i (suc n) lt h = ground (arith, ones_at i n)

ones_table : ones 62 ≡ true
unfolding char_at alphabet between
ones_table = refl

is_one-codes :
    (t : String) → is_one t ≡ true → (length (codes t) ≡ 1) × (all is_alphanumeric (codes t) ≡ true)
is_one-codes String.[] h = absurd (ground arith)
is_one-codes (String.◌∷◌ c String.[]) h = (refl, rw h refl)
is_one-codes (String.◌∷◌ c (String.◌∷◌ d s)) h = absurd (ground arith)

all-append :
    (p : ℕ → Bool) (xs ys : List ℕ) → all p xs ≡ true → all p ys ≡ true → all p (xs ++ ys) ≡ true
all-append p [] ys h k = k
all-append p (x ∷ xs) ys h k = ground (arith, all-append p xs ys)

module _ {S : Type 0} (draw : S → ℕ × S) (below : (s : S) → (draw s).0 < 62) where
  random_from-IsAlphanumeric :
      (n : ℕ) (result : String) (s : S)
      → all is_alphanumeric (codes result) ≡ true
      → let (text, s') = random_from draw n result s in
        (length (codes text) ≡ length (codes result) + n)
        × (all is_alphanumeric (codes text) ≡ true)
        × (s' ≡ after_draws draw n s)
  unfolding random_from
  random_from-IsAlphanumeric zero result s h = (omega arith, h, refl)
  random_from-IsAlphanumeric (suc n) result s h =
      let t = char_at (draw s).0 alphabet in
      let (size, class) = is_one-codes t (ones_at (draw s).0 62 (below s) ones_table) in
      let e = codes-append result t in
      let longer : length (codes (String.◌++◌ result t)) ≡ length (codes result) + 1 =
        ap length e
        ∙ length-append (codes result) (codes t)
        ∙ ap (λ k. length (codes result) + k) size in
      let (a, b, c) =
        random_from-IsAlphanumeric n (String.◌++◌ result t) (draw s).1
          (rw e (all-append is_alphanumeric (codes result) (codes t) h class)) in
      (omega (arith, a, longer), b, c)

  -- Where each draw is below the number of the characters, 62, the loop ends after as many rounds as
  -- asked for, having drawn once in each: the text has that many characters, each a letter or a digit.
  pub generate_random_string-IsAlphanumeric :
      (n : ℕ) (s : S)
      → let (text, s') = generate_random_string draw n s in
        (length (codes text) ≡ n)
        × (all is_alphanumeric (codes text) ≡ true)
        × (s' ≡ after_draws draw n s)
  unfolding generate_random_string
  generate_random_string-IsAlphanumeric n s =
      let (a, b, c) = random_from-IsAlphanumeric n "" s refl in (omega (arith, a), b, c)
