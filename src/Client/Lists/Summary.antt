-- ===== src/Client/Lists/Summary.antt =====
-- `summarizeKey` of frontend/features/ssh-keys/components/SshKeysClient.tsx on a key whose words stand
-- apart by single spaces.
use Prim.Native.String
use text.Mathlib.TextLemmas.{append-nil, append_assoc, nil-append, cons-append}
use foxplay_game.Common.{
  ℕ, ◌+◌, ◌-◌, ◌≤◌, ◌⊎◌, false, arith, leb, ◌==◌, Bool-cases, inl, inr, String, true, ◌≡◌, refl,
  sym, ap, ◌∙◌, List, [], ◌∷◌, template, All,
}
use foxplay_game.Models.{is_space, between}
use foxplay_game.Registry.Keys.{trim}
use foxplay_game.Client.Lists.{
  split_spaces, join_words, last_8, without_first, width, size, summarize_key, summary_of,
}
use foxplay_game.Client.Lists.Words.{
  has_no_space, is_word, IsWord, words-IsLine, trim-IsLine, word_unbroken, word_begins,
  starts_word-ne, solid,
}

-- what the summary shows of the body
abbrev pub shortened : String → String
shortened body = template ("…" ∷ last_8 body ∷ [])

without_first-has_no_space :
    (n : ℕ) (w : String) → has_no_space w ≡ true → has_no_space (without_first n w) ≡ true
unfolding is_space between
without_first-has_no_space n String.[] h = refl
without_first-has_no_space n (String.◌∷◌ c s) h =
    let rest = without_first-has_no_space (n - width c) s ((solid c s h).1) in
    let behind = (solid c s h).1 in
    elim (Bool-cases (n == 0)) [
      | inl e ↦ rw e h
      | inr e ↦ elim (Bool-cases (leb (width c) n)) [
        | inl f ↦ rw (e, f) rest
        | inr f ↦ rw (e, f) behind
      ]
    ]

dots-IsWord : (w : String) → has_no_space w ≡ true → IsWord (String.◌∷◌ "…" w)
unfolding is_space between
dots-IsWord w h = h

shortened-IsWord : (body : String) → IsWord body → IsWord (shortened body)
unfolding last_8
shortened-IsWord body h =
    rw (append-nil (last_8 body), cons-append "…" "" (last_8 body), nil-append (last_8 body))
      (dots-IsWord (last_8 body)
        (without_first-has_no_space (size body - 8) body (word_unbroken body h)))

summary_of-join_words :
    (type body : String) (comment : List String)
    → IsWord body
    → summary_of (type ∷ body ∷ comment) ≡ join_words (type ∷ shortened body ∷ comment)
summary_of-join_words type body [] h = rw (starts_word-ne body (word_begins body h)) refl
summary_of-join_words type body (w ∷ ws) h = rw (starts_word-ne body (word_begins body h)) (
    ap (λ t. String.◌++◌ type (String.◌++◌ " " t))
      (sym (
        append_assoc (shortened body) (String.◌++◌ " " (String.◌++◌ (join_words (w ∷ ws)) "")) "")))

size-append : (a b : String) → size (String.◌++◌ a b) ≡ size a + size b
size-append String.[] b = rw (nil-append b) (omega arith)
size-append (String.◌∷◌ c s) b = rw (cons-append c s b) (omega (arith, size-append s b))

without_first-zero : (s : String) → without_first 0 s ≡ s
without_first-zero String.[] = refl
without_first-zero (String.◌∷◌ c s) = refl

without_first-append : (n : ℕ) (a b : String) → n ≡ size a → without_first n (String.◌++◌ a b) ≡ b
without_first-append n String.[] b e = rw (nil-append b, e) (without_first-zero b)
without_first-append n (String.◌∷◌ c s) b e =
    let later = without_first-append (n - width c) s b (ground arith) in
    let some_left : (n == 0) ≡ false = ground arith in
    let fits : leb (width c) n ≡ true = ground arith in
    rw (cons-append c s b) (rw (some_left, fits) later)

-- What of a text is left by `slice(-8)`: eight code units, or all of it where it has no more.
abbrev pub IsLast8 : String → String → Type 0
IsLast8 front tail = (size tail ≡ 8) ⊎ ((size front ≡ 0) × (size tail ≤ 8))

last_8-append : (front tail : String) → IsLast8 front tail → last_8 (String.◌++◌ front tail) ≡ tail
unfolding last_8
last_8-append front tail (inl e) =
    without_first-append (size (String.◌++◌ front tail) - 8) front tail
      (omega (arith, size-append front tail, e))
last_8-append front tail (inr (none_left, few)) =
    without_first-append (size (String.◌++◌ front tail) - 8) front tail
      (omega (arith, size-append front tail, none_left, few))

-- Of a key whose type, body and words of comment have no white space and stand apart by single spaces,
-- and whose body ends in `tail`, which is its last eight code units or a body of no more than these, the
-- summary is the same text with "…" and `tail` in the place of the body.
pub summarize_key-join_words :
    (type front tail : String) (comment : List String)
    → is_word type ≡ true
    → is_word (String.◌++◌ front tail) ≡ true
    → All (λ w. is_word w ≡ true) comment
    → IsLast8 front tail
    → summarize_key (join_words (type ∷ String.◌++◌ front tail ∷ comment))
      ≡ join_words (type ∷ template ("…" ∷ tail ∷ []) ∷ comment)
unfolding summarize_key
summarize_key-join_words type front tail comment t b c ends =
    let body = String.◌++◌ front tail in
    let line = words-IsLine type (body ∷ comment) t (b, c) in
    let short = words-IsLine type (shortened body ∷ comment) t (shortened-IsWord body b, c) in
    ap (λ s. trim (summary_of (split_spaces s))) (trim-IsLine type (body ∷ comment) line)
    ∙ ap (λ l. trim (summary_of l)) line.splits
    ∙ ap trim (summary_of-join_words type body comment b)
    ∙ trim-IsLine type (shortened body ∷ comment) short
    ∙ ap (λ l. join_words (type ∷ template ("…" ∷ l ∷ []) ∷ comment))
        (last_8-append front tail ends)
