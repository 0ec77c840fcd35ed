-- ===== src/Util/Words.antt =====
-- The text helpers of IRC_PROTOCOL_SERVER/src/Util.cpp, and the calls of `<string>`, `<sstream>`
-- and `<cctype>` in the program.
use irc_protocol_server.Base.{
  ℕ, zero, suc, ◌+◌, ◌-◌, ◌/◌, ◌%◌, Text, text, ◌==◌, nat_key, text_key, Bool, true, false, Option,
  none, some, ◌*◌, ◌^◌, min, ◌&&◌, ◌||◌, List, [], ◌∷◌, ◌++◌, drop, leb, ltb, contains,
  if◌then◌else◌,
}

-- `isdigit`
unfoldable pub is_digit : ℕ → Bool
is_digit c = leb b'0' c && leb c b'9'

-- `isalnum`, in the C locale
unfoldable pub is_alnum : ℕ → Bool
unfolding is_digit
is_alnum c = is_digit c || (leb b'a' c && leb c b'z' || leb b'A' c && leb c b'Z')

-- `std::toupper`, in the C locale
unfoldable pub to_upper : ℕ → ℕ
to_upper c = if leb b'a' c && leb c b'z' then c - 32 else c

unfoldable pub is_special_char : ℕ → Bool
is_special_char c = contains c (text "_|[]{}\\")

abbrev pub push_front : ℕ → List Text → List Text
push_front c [] = (c ∷ []) ∷ []
push_front c (piece ∷ pieces) = (c ∷ piece) ∷ pieces

-- What repeated `getline(stream, piece, delim)` reads: no piece follows a delimiter at the end.
unfoldable pub split : Text → ℕ → List Text
split [] delim = []
split (c ∷ rest) delim =
    let pieces = split rest delim in if c == delim then [] ∷ pieces else push_front c pieces

-- `s[0] == c`; at the end of a string stands a NUL.
unfoldable pub head_is : ℕ → Text → Bool
head_is c [] = c == 0
head_is c (b ∷ rest) = b == c

-- The words with a space between two of them.
unfoldable pub unwords : List Text → Text
unwords [] = []
unwords (w ∷ []) = w
unwords (w ∷ v ∷ rest) = w ++ (b' ' ∷ unwords (v ∷ rest))

abbrev strip_colon : Text → Text
strip_colon message = if head_is b':' message then drop 1 message else message

abbrev or_no_reason : Text → Text
or_no_reason [] = text "NO REASON"
or_no_reason (c ∷ rest) = c ∷ rest

unfoldable pub channel_message : ℕ → List Text → Text
unfolding head_is unwords
channel_message index command_vec = or_no_reason (strip_colon (unwords (drop index command_vec)))

-- The decimal digits of a number; `fuel` bounds their count.
unfoldable pub decimal : ℕ → ℕ → Text
decimal zero n = []
decimal (suc fuel) n =
    let high = decimal fuel (n / 10) in
    if ltb n 10 then (b'0' + n) ∷ [] else high ++ ((b'0' + n % 10) ∷ [])

-- `intToString` at a size, and `<<` at an unsigned number: ten digits hold 32 bits.
unfoldable pub int_to_string : ℕ → Text
unfolding decimal
int_to_string value = decimal 10 value

-- `s.find(p) != npos`
abbrev is_prefix : Text → Text → Bool
is_prefix [] s = true
is_prefix (c ∷ p) [] = false
is_prefix (c ∷ p) (b ∷ s) = c == b && is_prefix p s

unfoldable pub is_infix : Text → Text → Bool
is_infix p [] = p == []
is_infix p (b ∷ s) = is_prefix p (b ∷ s) || is_infix p s

-- The bytes before the first NUL
unfoldable pub c_str : Text → Text
c_str [] = []
c_str (c ∷ s) = let rest = c_str s in if c == 0 then [] else c ∷ rest

unfoldable pub all_digits : Text → Bool
unfolding is_digit
all_digits [] = true
all_digits (c ∷ s) = is_digit c && all_digits s

abbrev pub digits_value : ℕ → Text → ℕ
digits_value acc [] = acc
digits_value acc (c ∷ s) = digits_value (acc * 10 + (c - b'0')) s

-- `atoi` on digits: `strtol` stops at the greatest `long`, and the cast keeps 32 bits. `none` is a
-- negative number.
unfoldable pub atoi : Text → Option ℕ
atoi s =
    let v = min (digits_value 0 s) (2 ^ 63 - 1) % 2 ^ 32 in if ltb v (2 ^ 31) then some v else none
