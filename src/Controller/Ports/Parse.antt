-- ===== src/Controller/Ports/Parse.antt =====
-- `parseInt(text, 16)` of controller/src/Ports.ts on four hexadecimal digits.
use foxplay_game.Common.{
  ℕ, ◌+◌, ◌*◌, ◌<◌, ◌/◌, ◌%◌, Bool, true, false, ◌≡◌, ap, ◌∙◌, List, [], ◌∷◌, some, arith, ◌==◌,
  leb, ◌&&◌, if◌then◌else◌,
}
use foxplay_game.Controller.Ports.{num, hex_digit, hex_run, hex_number, skip_0x, parse_int_16}

-- A digit as the kernel prints it, `%X`.
abbrev pub hex_char : ℕ → ℕ
hex_char d = if leb d 9 then d + b'0' else d + 55

-- `%04X`
abbrev pub hex_4 : ℕ → List ℕ
hex_4 p =
    hex_char (p / 4096) ∷ hex_char (p / 256 % 16) ∷ hex_char (p / 16 % 16) ∷ hex_char (p % 16) ∷ []

hex_digit-hex_char : (d : ℕ) → d < 16 → hex_digit (hex_char d) ≡ some d
unfolding hex_digit
hex_digit-hex_char d h = ground arith

-- What `parseInt` asks of the characters in front.
hex_char_plain :
    (d : ℕ)
    → d < 16
    → ((hex_char d == b'-') ≡ false)
      × ((hex_char d == b'+') ≡ false)
      × ((hex_char d == b'x') ≡ false)
      × ((hex_char d == b'X') ≡ false)
hex_char_plain d h = ground arith

hex_number-four :
    (a b c d x y z t : ℕ)
    → hex_digit a ≡ some x
    → hex_digit b ≡ some y
    → hex_digit c ≡ some z
    → hex_digit d ≡ some t
    → hex_number false (a ∷ b ∷ c ∷ d ∷ []) ≡ num false (((x * 16 + y) * 16 + z) * 16 + t)
unfolding hex_number hex_run
hex_number-four a b c d x y z t ha hb hc hd = ground arith

four_digits :
    (a b c d x y z t : ℕ)
    → hex_digit a ≡ some x
    → hex_digit b ≡ some y
    → hex_digit c ≡ some z
    → hex_digit d ≡ some t
    → ((a == b'-') ≡ false) × ((a == b'+') ≡ false)
    → ((b == b'x') ≡ false) × ((b == b'X') ≡ false)
    → parse_int_16 (a ∷ b ∷ c ∷ d ∷ []) ≡ num false (((x * 16 + y) * 16 + z) * 16 + t)
unfolding parse_int_16 skip_0x
four_digits a b c d x y z t ha hb hc hd sign zero_x =
    rw (sign.0, sign.1, zero_x.0, zero_x.1) (no_prefix (a == b'0'))
  where
    digits : hex_number false (a ∷ b ∷ c ∷ d ∷ []) ≡ num false (((x * 16 + y) * 16 + z) * 16 + t)
    digits = hex_number-four a b c d x y z t ha hb hc hd

    no_prefix :
        (t' : Bool)
        → hex_number false (if t' && false then c ∷ d ∷ [] else a ∷ b ∷ c ∷ d ∷ [])
          ≡ num false (((x * 16 + y) * 16 + z) * 16 + t)
    no_prefix true = digits
    no_prefix false = digits

-- A port that the kernel prints with four hexadecimal digits is read back as that port.
pub parse_int_16-hex_4 : (p : ℕ) → p < 65536 → parse_int_16 (hex_4 p) ≡ num false p
parse_int_16-hex_4 p h =
    let plain = hex_char_plain (p / 4096) (omega arith) in
    let plain' = hex_char_plain (p / 256 % 16) (omega arith) in
    four_digits _ _ _ _ (p / 4096) (p / 256 % 16) (p / 16 % 16) (p % 16)
      (hex_digit-hex_char (p / 4096) (omega arith))
      (hex_digit-hex_char (p / 256 % 16) (omega arith))
      (hex_digit-hex_char (p / 16 % 16) (omega arith)) (hex_digit-hex_char (p % 16) (omega arith))
      (plain.0, plain.1) (plain'.2, plain'.3)
    ∙ ap (num false) (omega arith)
