-- ===== src/Client/Lists/Words.antt =====
-- Texts of words that stand apart by single spaces, as `trim` and `split` take them in
-- frontend/features/ssh-keys/components/SshKeysClient.tsx.
use Prim.Native.Char.{Char, code}
use Prim.Native.String
use text.Mathlib.TextLemmas.{cons≢nil, append-nil, nil-append, cons-append}
use foxplay_game.Common.{
  String, Bool, true, false, not, ◌&&◌, ◌≡◌, refl, ap, ◌∙◌, arith, List, [], ◌∷◌, str_eq, All,
  Bool-cases, eq_iff, inl, inr,
}
use foxplay_game.Models.{is_space}
use foxplay_game.Registry.Keys.{trim, trim_start, trim_end}
use foxplay_game.Client.Lists.{starts_space, on_head, split_spaces, join_words}

-- no character is white space
abbrev pub has_no_space : String → Bool
has_no_space String.[] = true
has_no_space (String.◌∷◌ c s) = not (is_space (code c)) && has_no_space s

-- such a text, and not empty
abbrev pub is_word : String → Bool
is_word String.[] = false
is_word (String.◌∷◌ c s) = not (is_space (code c)) && has_no_space s

abbrev pub IsWord : String → Type 0
IsWord w = is_word w ≡ true

-- A text that begins with a character that is no white space.
abbrev pub starts_word : String → Bool
starts_word String.[] = false
starts_word (String.◌∷◌ c s) = not (is_space (code c))

trim_start-starts_word : (s : String) → starts_word s ≡ true → trim_start s ≡ s
unfolding trim_start
trim_start-starts_word String.[] h = refl
trim_start-starts_word (String.◌∷◌ c s) h = ground arith

trim_end-has_no_space : (w : String) → has_no_space w ≡ true → trim_end w ≡ w
unfolding trim_end
trim_end-has_no_space String.[] h = refl
trim_end-has_no_space (String.◌∷◌ c s) h = ground (arith, trim_end-has_no_space s)

ne-empty : (c : Char) (s : String) → str_eq (String.◌∷◌ c s) "" ≡ false
ne-empty c s = elim (Bool-cases (str_eq (String.◌∷◌ c s) "")) [
  | inl e ↦ absurd (cons≢nil ((eq_iff (String.◌∷◌ c s) "").0 e))
  | inr e ↦ e
]

pub solid :
    (c : Char) (s : String)
    → has_no_space (String.◌∷◌ c s) ≡ true
    → (is_space (code c) ≡ false) × (has_no_space s ≡ true) × (starts_word (String.◌∷◌ c s) ≡ true)
solid c s h = (ground arith, ground arith, ground arith)

append-ne : (a b : String) → str_eq b "" ≡ false → str_eq (String.◌++◌ a b) "" ≡ false
append-ne String.[] b h = rw (nil-append b) h
append-ne (String.◌∷◌ c s) b h = rw (cons-append c s b) (ne-empty c (String.◌++◌ s b))

trim_end-append :
    (a b : String)
    → trim_end b ≡ b
    → str_eq b "" ≡ false
    → trim_end (String.◌++◌ a b) ≡ String.◌++◌ a b
unfolding trim_end
trim_end-append String.[] b e h = rw (nil-append b) e
trim_end-append (String.◌∷◌ c s) b e h =
    let same = trim_end-append s b e h in
    let more = append-ne s b h in rw (cons-append c s b) (ground arith)

split_spaces-solid :
    (c : Char) (s : String)
    → is_space (code c) ≡ false
    → split_spaces (String.◌∷◌ c s) ≡ on_head c (split_spaces s)
unfolding split_spaces
split_spaces-solid c s h = rw h refl

split_spaces-word : (w : String) → has_no_space w ≡ true → split_spaces w ≡ w ∷ []
split_spaces-word String.[] h = unfold split_spaces in refl
split_spaces-word (String.◌∷◌ c s) h =
    let (e, f, _) = solid c s h in split_spaces-solid c s e ∙ ap (on_head c) (split_spaces-word s f)

split_spaces-gap :
    (v : String) → starts_space v ≡ false → split_spaces (String.◌∷◌ " " v) ≡ "" ∷ split_spaces v
unfolding split_spaces is_space
split_spaces-gap v h = rw h refl

starts_word-starts_space : (v : String) → starts_word v ≡ true → starts_space v ≡ false
starts_word-starts_space String.[] h = refl
starts_word-starts_space (String.◌∷◌ c s) h = ground arith

split_spaces-append :
    (w v : String)
    → has_no_space w ≡ true
    → starts_word v ≡ true
    → split_spaces (String.◌++◌ w (String.◌++◌ " " v)) ≡ w ∷ split_spaces v
split_spaces-append String.[] v h k =
    let spaced : String.◌++◌ " " v ≡ String.◌∷◌ " " v =
      cons-append " " "" v ∙ ap (String.◌∷◌ " ") (nil-append v) in
    rw (nil-append (String.◌++◌ " " v), spaced) (split_spaces-gap v (starts_word-starts_space v k))
split_spaces-append (String.◌∷◌ c s) v h k =
    let (e, f, _) = solid c s h in
    rw (cons-append c s (String.◌++◌ " " v)) (
      split_spaces-solid c (String.◌++◌ s (String.◌++◌ " " v)) e
      ∙ ap (on_head c) (split_spaces-append s v f k))

pub word_unbroken : (w : String) → IsWord w → has_no_space w ≡ true
word_unbroken String.[] h = refl
word_unbroken (String.◌∷◌ c s) h = h

pub word_begins : (w : String) → IsWord w → starts_word w ≡ true
word_begins String.[] h = h
word_begins (String.◌∷◌ c s) h = (solid c s h).2

word_then : (w v : String) → IsWord w → starts_word (String.◌++◌ w v) ≡ true
word_then String.[] v h = absurd (ground arith)
word_then (String.◌∷◌ c s) v h = rw (cons-append c s v) ((solid c s h).2)

pub starts_word-ne : (v : String) → starts_word v ≡ true → str_eq v "" ≡ false
starts_word-ne String.[] h = absurd (ground arith)
starts_word-ne (String.◌∷◌ c s) h = ne-empty c s

-- A line of words stays as it is when it is trimmed, and splits into these words.
pub record IsLine (w : String) (ws : List String) : Type 0 where
  pub begins : starts_word (join_words (w ∷ ws)) ≡ true
  pub ends : trim_end (join_words (w ∷ ws)) ≡ join_words (w ∷ ws)
  pub splits : split_spaces (join_words (w ∷ ws)) ≡ w ∷ ws

pub words-IsLine : (w : String) (ws : List String) → IsWord w → All IsWord ws → IsLine w ws
words-IsLine w [] h k = record {
  begins = word_begins w h;
  ends = trim_end-has_no_space w (word_unbroken w h);
  splits = split_spaces-word w (word_unbroken w h);
}
words-IsLine w (v ∷ ws) h k =
    let rest = words-IsLine v ws k.0 k.1 in
    let nonempty = starts_word-ne (join_words (v ∷ ws)) rest.begins in
    record {
      begins = word_then w _ h;
      ends = rw (append-nil (join_words (v ∷ ws))) (
          trim_end-append w (String.◌++◌ " " (join_words (v ∷ ws)))
            (trim_end-append " " (join_words (v ∷ ws)) rest.ends nonempty)
            (append-ne " " (join_words (v ∷ ws)) nonempty));
      splits = rw (append-nil (join_words (v ∷ ws))) (
          split_spaces-append w (join_words (v ∷ ws)) (word_unbroken w h) rest.begins
          ∙ ap (λ l. w ∷ l) rest.splits);
    }

pub trim-IsLine :
    (w : String) (ws : List String) → IsLine w ws → trim (join_words (w ∷ ws)) ≡ join_words (w ∷ ws)
unfolding trim
trim-IsLine w ws l = rw (trim_start-starts_word (join_words (w ∷ ws)) l.begins) l.ends
