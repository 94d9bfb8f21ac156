-- ===== src/Controller/Ports.antt =====
-- controller/src/Ports.ts: the ports in use, read from /proc/net, and the search for free ones. A
-- file's content is a list of characters.
pub mod Search
pub mod Parse
pub mod Columns
pub mod Lines
use foxplay_game.Common.{
  ℕ, zero, suc, ◌+◌, ◌-◌, ◌*◌, String, Bool, true, false, ◌&&◌, ◌||◌, List, [], ◌∷◌, ◌++◌, Option,
  none, some, ltb, ◌==◌, if◌then◌else◌, length, drop, any, get_elem?, split_on,
}
use foxplay_game.Models.{is_space, between}

-- A JavaScript number as `parseInt` gives it: NaN, or a sign and a whole number.
pub data Number : Type 0 where
  nan : Number
  num : Bool → ℕ → Number

-- `used.has(port)`; 0 and -0 are one element
unfoldable pub is_port : ℕ → Number → Bool
is_port p nan = false
is_port p (num false n) = n == p
is_port p (num true n) = n == 0 && p == 0

abbrev pub has : List Number → ℕ → Bool
has used p = any (is_port p) used

unfoldable pub hex_digit : ℕ → Option ℕ
unfolding between
hex_digit c =
    if between b'0' b'9' c
    then some (c - b'0')
    else if between b'a' b'f' c
    then some (c - b'a' + 10)
    else if between b'A' b'F' c
    then some (c - b'A' + 10)
    else none

-- the value of the longest run of hexadecimal digits, behind those read so far
unfoldable pub hex_run : ℕ → List ℕ → ℕ
hex_run acc [] = acc
hex_run acc (c ∷ cs) = elim (hex_digit c) [ none ↦ acc | some d ↦ hex_run (acc * 16 + d) cs ]

unfoldable pub hex_number : Bool → List ℕ → Number
hex_number sign [] = nan
hex_number sign (c ∷ cs) = elim (hex_digit c) [ none ↦ nan | some d ↦ num sign (hex_run d cs) ]

-- `0x` or `0X` in front of the digits
unfoldable pub skip_0x : List ℕ → List ℕ
skip_0x (z ∷ x ∷ cs) = if z == b'0' && (x == b'x' || x == b'X') then cs else z ∷ x ∷ cs
skip_0x cs = cs

-- `parseInt(text, 16)` of a text that begins with no white space
unfoldable pub parse_int_16 : List ℕ → Number
parse_int_16 [] = nan
parse_int_16 (c ∷ cs) =
    if c == b'-'
    then hex_number true (skip_0x cs)
    else if c == b'+'
    then hex_number false (skip_0x cs)
    else hex_number false (skip_0x (c ∷ cs))

unfoldable pub skip_spaces : List ℕ → List ℕ
unfolding is_space
skip_spaces [] = []
skip_spaces (c ∷ cs) = if is_space c then skip_spaces cs else c ∷ cs

unfoldable pub first_word : List ℕ → List ℕ
unfolding is_space
first_word [] = []
first_word (c ∷ cs) = if is_space c then [] else c ∷ first_word cs

unfoldable pub skip_first_word : List ℕ → List ℕ
unfolding is_space
skip_first_word [] = []
skip_first_word (c ∷ cs) = if is_space c then c ∷ cs else skip_first_word cs

-- `line.trim().split(/\s+/)[1]`; where there is no second word, the empty text, which is falsy too
unfoldable pub local_address : List ℕ → List ℕ
unfolding skip_spaces first_word skip_first_word
local_address line = first_word (skip_spaces (skip_first_word (skip_spaces line)))

-- `parseInt(localAddr.split(":")[1], 16)`; `parseInt(undefined)` is NaN
unfoldable pub address_port : List ℕ → Number
unfolding split_on parse_int_16
address_port addr = elim (get_elem? (split_on b':' addr) 1) [
  | none ↦ nan
  | some text ↦ parse_int_16 text
]

-- the body of the loop over the lines
unfoldable pub add_line : List ℕ → List Number → List Number
unfolding local_address address_port
add_line line ports = elim (local_address line) [
  | [] ↦ ports
  | c ∷ cs ↦ address_port (c ∷ cs) ∷ ports
]

unfoldable pub add_lines : List (List ℕ) → List Number → List Number
unfolding add_line
add_lines [] ports = ports
add_lines (line ∷ lines) ports = add_lines lines (add_line line ports)

unfoldable pub add_files :
    (String → Option (List ℕ)) → List String → List Number → Option (List Number)
unfolding add_lines split_on
add_files read [] ports = some ports
add_files read (file ∷ files) ports = elim (read file) [
  | none ↦ none
  | some content ↦ add_files read files (add_lines (drop 1 (split_on 10 content)) ports)
]

abbrev pub proc_files : List String
proc_files = "/proc/net/tcp" ∷ "/proc/net/tcp6" ∷ "/proc/net/udp" ∷ "/proc/net/udp6" ∷ []

-- `read` is `fs.promises.readFile`, `none` where it rejects
unfoldable pub get_used_ports : (String → Option (List ℕ)) → Option (List Number)
unfolding add_files
get_used_ports read = add_files read proc_files []

-- The loop, over the number of ports from `port` to the end of the range.
unfoldable pub search_from : ℕ → ℕ → ℕ → List Number → List ℕ → List ℕ
unfolding is_port
search_from zero port count used ports = ports
search_from (suc rounds) port count used ports = elim (ltb (length ports) count) [
  | false ↦ ports
  | true ↦ elim (has used port) [
    | true ↦ search_from rounds (port + 1) count used ports
    | false ↦ search_from rounds (port + 1) count (num false port ∷ used) (ports ++ port ∷ [])
  ]
]

-- the search once the ports in use are known
unfoldable pub search : ℕ → ℕ → ℕ → List Number → List ℕ
unfolding search_from
search count start end used = search_from (end + 1 - start) start count used []

unfoldable pub find_available_ports : (String → Option (List ℕ)) → ℕ → ℕ → ℕ → Option (List ℕ)
unfolding get_used_ports search
find_available_ports read count start end = elim (get_used_ports read) [
  | none ↦ none
  | some used ↦ some (search count start end used)
]
