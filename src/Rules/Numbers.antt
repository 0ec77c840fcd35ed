-- ===== src/Rules/Numbers.antt =====
-- Numbers as texts: `intToString` of IRC_PROTOCOL_SERVER/src/Util.cpp, and the limit that
-- IRC_PROTOCOL_SERVER/command/Mode.cpp reads
use irc_protocol_server.Base.{
  ℕ, zero, suc, ◌+◌, ◌-◌, ◌*◌, ◌/◌, ◌%◌, ◌^◌, ◌<◌, min, nat_key, Text, text_key, ◌≡◌, refl, true,
  some, [], ◌∷◌, ◌++◌, arith, ltb, Bool-cases, inl, inr,
}
use irc_protocol_server.Util.{
  decimal, int_to_string, is_digit, all_digits, digits_value, atoi, c_str,
}
use irc_protocol_server.Command.Mode.{limit_of}

digits_value-snoc :
    (acc : ℕ) (s : Text) (c : ℕ)
    → digits_value acc (s ++ (c ∷ [])) ≡ digits_value acc s * 10 + (c - b'0')
digits_value-snoc acc [] c = refl
digits_value-snoc acc (d ∷ s) c = digits_value-snoc (acc * 10 + (d - b'0')) s c

all_digits-snoc :
    (s : Text) (c : ℕ) → all_digits s ≡ true → is_digit c ≡ true → all_digits (s ++ (c ∷ [])) ≡ true
unfolding all_digits
all_digits-snoc [] c all one = ground arith
all_digits-snoc (d ∷ s) c all one = ground (arith, all_digits-snoc s c)

-- A text of digits has no NUL.
c_str-all_digits : (s : Text) → all_digits s ≡ true → c_str s ≡ s
unfolding c_str all_digits is_digit
c_str-all_digits [] all = refl
c_str-all_digits (c ∷ s) all = ground (arith, c_str-all_digits s)

abbrev power_of_ten : ℕ → ℕ
power_of_ten zero = 1
power_of_ten (suc n) = 10 * power_of_ten n

ten_parts : (n : ℕ) → n / 10 * 10 + n % 10 ≡ n
ten_parts n = omega arith

digits_value-decimal : (fuel n : ℕ) → n < power_of_ten fuel → digits_value 0 (decimal fuel n) ≡ n
unfolding decimal
digits_value-decimal zero n small = omega (arith, small)
digits_value-decimal (suc fuel) n small = elim (Bool-cases (ltb n 10)) [
  | inl one ↦ ground arith
  | inr more ↦ ground (
    arith,
    digits_value-snoc 0 (decimal fuel (n / 10)) (b'0' + n % 10),
    digits_value-decimal fuel (n / 10) (ground arith),
    ten_parts n,
  )
]

all_digits-decimal : (fuel n : ℕ) → all_digits (decimal fuel n) ≡ true
unfolding decimal all_digits is_digit
all_digits-decimal zero n = refl
all_digits-decimal (suc fuel) n = elim (Bool-cases (ltb n 10)) [
  | inl one ↦ ground arith
  | inr more ↦ ground (
    arith,
    all_digits-snoc (decimal fuel (n / 10)) (b'0' + n % 10) (all_digits-decimal fuel (n / 10)),
  )
]

cut_value : (n : ℕ) → n < 2147483648 → min n (2 ^ 63 - 1) % 2 ^ 32 ≡ n
cut_value n small = omega (arith, small)

atoi-value : (s : Text) (n : ℕ) → digits_value 0 s ≡ n → n < 2147483648 → atoi s ≡ some n
unfolding atoi
atoi-value s n e small = rw (e, cut_value n small) (ground (arith, small))

-- The decimal text of a number below 2147483648, given to MODE as a limit, is read as that number.
pub limit_of-int_to_string : (n : ℕ) → n < 2147483648 → limit_of (int_to_string n) ≡ some n
unfolding limit_of int_to_string
limit_of-int_to_string n small =
    let digits = all_digits-decimal 10 n in
    rw (c_str-all_digits (decimal 10 n) digits, digits)
      (atoi-value (decimal 10 n) n (digits_value-decimal 10 n (omega (arith, small))) small)
