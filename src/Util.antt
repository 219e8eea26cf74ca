-- ===== src/Util.antt =====
-- reyao/util.cc (`HexToDec`) and the C library's text functions that the sources call.
-- A std::string is the list of its bytes; `c_str()` is read up to the first NUL.
use Prim.Native.Char.{code}
use Prim.Native.String.{String}
use reyao.Common.{
  ℕ, zero, suc, ◌+◌, ◌-◌, ◌*◌, ◌/◌, ◌%◌, ◌^◌, Bool, true, false, ◌&&◌, ◌||◌, Option, none, some, [],
  ◌∷◌, ltb, leb, ◌==◌, if◌then◌else◌, Outcome, ok, err, out_of_range, invalid_argument, ◌≡◌, ◌≢◌,
  refl, unfinished, arith,
}
use reyao.Common.Bytes.{Bytes}
use mathlib.Core.Option

-- The bytes of a text literal.
abbrev pub codes : String → Bytes
codes String.[] = []
codes (String.◌∷◌ c s) = code c ∷ codes s

unfoldable pub c_str : Bytes → Bytes
c_str [] = []
c_str (c ∷ cs) = if c == 0 then [] else c ∷ c_str cs

unfoldable pub bytes_eq : Bytes → Bytes → Bool
bytes_eq [] [] = true
bytes_eq (x ∷ xs) (y ∷ ys) = x == y && bytes_eq xs ys
bytes_eq _ _ = false

-- `tolower` and `toupper` in the "C" locale.
unfoldable pub lower : ℕ → ℕ
lower c = if leb b'A' c && leb c b'Z' then c + 32 else c

unfoldable pub upper : ℕ → ℕ
upper c = if leb b'a' c && leb c b'z' then c - 32 else c

unfoldable pub lower_all : Bytes → Bytes
unfolding lower
lower_all [] = []
lower_all (c ∷ cs) = lower c ∷ lower_all cs

-- What `strcasecmp` compares.
unfoldable pub fold_case : Bytes → Bytes
unfolding c_str lower_all
fold_case s = lower_all (c_str s)

-- The order of `strcmp`: a proper prefix comes first.
unfoldable pub bytes_less : Bytes → Bytes → Bool
bytes_less _ [] = false
bytes_less [] (y ∷ ys) = true
bytes_less (x ∷ xs) (y ∷ ys) = ltb x y || (x == y && bytes_less xs ys)

-- strcasecmp(a, b) == 0 and strcasecmp(a, b) < 0.
unfoldable pub case_eq : Bytes → Bytes → Bool
unfolding fold_case bytes_eq
case_eq a b = bytes_eq (fold_case a) (fold_case b)

unfoldable pub case_less : Bytes → Bytes → Bool
unfolding fold_case bytes_less
case_less a b = bytes_less (fold_case a) (fold_case b)

-- `std::find` of a character: its distance from the start; `none` is the end iterator.
unfoldable pub find_char : ℕ → Bytes → Option ℕ
find_char c [] = none
find_char c (x ∷ xs) = if x == c then some 0 else Option.map suc (find_char c xs)

is_space : ℕ → Bool
is_space c = (leb 9 c && leb c 13) || c == 32

is_digit : ℕ → Bool
is_digit c = leb b'0' c && leb c b'9'

skip_spaces : Bytes → Bytes
unfolding is_space
skip_spaces [] = []
skip_spaces (c ∷ cs) = if is_space c then skip_spaces cs else c ∷ cs

-- The digits in front, as a number; `none` if there is none.
digits : Option ℕ → Bytes → Option ℕ
unfolding is_digit
digits acc [] = acc
digits acc (c ∷ cs) =
    let next : Option ℕ = some (Option.get_or acc 0 * 10 + (c - b'0')) in
    let rest = digits next cs in if is_digit c then rest else acc

-- `std::stoi`: the bit pattern of the `int`, or the exception that it throws.
positive : Option ℕ → Outcome ℕ
positive none = err invalid_argument
positive (some n) = if ltb n (2 ^ 31) then ok n else err out_of_range

negative : Option ℕ → Outcome ℕ
negative none = err invalid_argument
negative (some n) = if leb n (2 ^ 31) then ok ((2 ^ 32 - n) % 2 ^ 32) else err out_of_range

signed : Bytes → Outcome ℕ
unfolding digits positive negative
signed [] = err invalid_argument
signed (c ∷ cs) =
    if c == b'-'
    then negative (digits none cs)
    else if c == b'+'
    then positive (digits none cs)
    else positive (digits none (c ∷ cs))

unfoldable pub stoi : Bytes → Outcome ℕ
unfolding signed skip_spaces
stoi s = signed (skip_spaces s)

positive-ends : (n : Option ℕ) → positive n ≢ err unfinished
unfolding positive
positive-ends none h = cc h
positive-ends (some n) h = ground arith

negative-ends : (n : Option ℕ) → negative n ≢ err unfinished
unfolding negative
negative-ends none h = cc h
negative-ends (some n) h = ground arith

signed-ends : (s : Bytes) → signed s ≢ err unfinished
unfolding signed
signed-ends [] h = cc h
signed-ends (c ∷ cs) h = ground (
  arith,
  negative-ends (digits none cs),
  positive-ends (digits none cs),
  positive-ends (digits none (c ∷ cs)),
)

-- `stoi` throws, or gives a number.
pub stoi-ends : (s : Bytes) → stoi s ≢ err unfinished
unfolding stoi
stoi-ends s = signed-ends (skip_spaces s)

abbrev is_hex_letter : ℕ → Bool
is_hex_letter c = leb b'A' c && leb c b'F'

-- The value of a hexadecimal digit as `HexToDec` reads it.
unfoldable pub hex_digit : ℕ → Option ℕ
unfolding is_digit upper
hex_digit c =
    if is_digit c
    then some (c - b'0')
    else if is_hex_letter (upper c)
    then some (upper c - b'A' + 10)
    else none

hex_loop : ℕ → Bytes → ℕ
unfolding hex_digit
hex_loop res [] = res % 2 ^ 32
hex_loop res (c ∷ cs) =
    let rest = hex_loop ((res * 16 + Option.get_or (hex_digit c) 0) % 2 ^ 64) cs in
    elim (hex_digit c) [ some d ↦ rest | none ↦ 2 ^ 32 - 1 ]

-- The result is the bit pattern of the `int`; -1 on a character that is no digit. The sum is a
-- `size_t`, of which the low 32 bits are returned.
unfoldable pub hex_to_dec : Bytes → ℕ
unfolding hex_loop
hex_to_dec hex = hex_loop 0 hex

stoi_runs : stoi (codes "  42x") ≡ ok 42
unfolding stoi
stoi_runs = refl

stoi_negative : stoi (codes "-2") ≡ ok (2 ^ 32 - 2)
unfolding stoi
stoi_negative = refl

hex_runs : hex_to_dec (codes "1aF") ≡ 0x1af
unfolding hex_to_dec
hex_runs = refl

case_runs : case_eq (codes "Content-LENGTH") (codes "content-length") ≡ true
unfolding case_eq
case_runs = refl

-- `os << n` for a `size_t`, which has at most 20 decimal digits.
decimal_loop : ℕ → ℕ → Bytes → Bytes
decimal_loop zero n acc = acc
decimal_loop (suc fuel) n acc =
    let more = decimal_loop fuel (n / 10) ((n % 10 + b'0') ∷ acc) in
    if ltb n 10 then (n + b'0') ∷ acc else more

unfoldable pub decimal : ℕ → Bytes
unfolding decimal_loop
decimal n = decimal_loop 20 n []

decimal_runs : decimal 4096 ≡ codes "4096"
unfolding decimal
decimal_runs = refl
