-- ===== src/Rules/Texts.antt =====
-- `split` of IRC_PROTOCOL_SERVER/src/Util.cpp, and `filter` of IRC_PROTOCOL_SERVER/main.cpp
use irc_protocol_server.Base.{
  ℕ, suc, none, ◌≤◌, Text, text_key, nat_key, ◌==◌, ◌≡◌, ◌↔◌, refl, true, false, some, List, [],
  ◌∷◌, ◌++◌, length, contains, arith, Option-cases, inl, inr, Bool-cases, ap, ◌∙◌, ◌≢◌,
  if◌then◌else◌, ◌+◌, ◌-◌, ◌*◌, ◌^◌, ◌%◌, min, ltb,
}
use native.Mathlib.Numerals.{unary_clauses}
use irc_protocol_server.Util.{split, push_front, all_digits, atoi, digits_value}
use irc_protocol_server.Events.{filter_arguments, accepted_arguments}

-- No piece has the delimiter in it.
abbrev pub NoDelimiter : ℕ → List Text → Type 0
NoDelimiter delim [] = Unit {0}
NoDelimiter delim (piece ∷ pieces) = (contains delim piece ≡ false) × NoDelimiter delim pieces

-- Each piece with the delimiter behind it
abbrev pub join_pieces : ℕ → List Text → Text
join_pieces delim [] = []
join_pieces delim (piece ∷ pieces) = piece ++ (delim ∷ join_pieces delim pieces)

push_front-NoDelimiter :
    (delim c : ℕ) (pieces : List Text)
    → (c == delim) ≡ false
    → NoDelimiter delim pieces
    → NoDelimiter delim (push_front c pieces)
unfolding contains
push_front-NoDelimiter delim c [] other all = (ground arith, tt)
push_front-NoDelimiter delim c (piece ∷ pieces) other all = (ground (arith, all.0), all.1)

-- No piece that `split` gives has the delimiter in it.
pub split-NoDelimiter : (delim : ℕ) (s : Text) → NoDelimiter delim (split s delim)
unfolding split contains
split-NoDelimiter delim [] = tt
split-NoDelimiter delim (c ∷ s) = elim (Bool-cases (c == delim)) [
  | inl same ↦ rw same (refl, split-NoDelimiter delim s)
  | inr other ↦ rw other (push_front-NoDelimiter delim c _ other (split-NoDelimiter delim s))
]

push_front-cons : (c : ℕ) (pieces : List Text) → push_front c pieces ≢ []
push_front-cons c [] e = ground arith
push_front-cons c (piece ∷ pieces) e = ground arith

split-nil : (delim : ℕ) (s : Text) → split s delim ≡ [] → s ≡ []
unfolding split
split-nil delim [] e = refl
split-nil delim (c ∷ s) e = ground (arith, push_front-cons c (split s delim))

split-cons : (delim d : ℕ) (s : Text) → split (d ∷ s) delim ≢ []
split-cons delim d s e = ground (arith, split-nil delim (d ∷ s) e)

-- What the text lacks to end in the delimiter, or to be empty
abbrev pub missing : ℕ → Text → Text
missing delim [] = []
missing delim (c ∷ []) = if c == delim then [] else delim ∷ []
missing delim (c ∷ d ∷ s) = missing delim (d ∷ s)

missing-cons : (delim c : ℕ) (s : Text) → s ≢ [] → missing delim (c ∷ s) ≡ missing delim s
missing-cons delim c [] more = absurd (more refl)
missing-cons delim c (d ∷ s) more = refl

join-push_front :
    (delim c : ℕ) (pieces : List Text)
    → pieces ≢ []
    → join_pieces delim (push_front c pieces) ≡ c ∷ join_pieces delim pieces
join-push_front delim c [] more = absurd (more refl)
join-push_front delim c (piece ∷ pieces) more = refl

join-split : (delim : ℕ) (s : Text) → join_pieces delim (split s delim) ≡ s ++ missing delim s
unfolding split
join-split delim [] = refl
join-split delim (c ∷ []) = elim (Bool-cases (c == delim)) [
  | inl same ↦ rw same (ground (arith, nat_key.beq_iff c delim))
  | inr other ↦ rw other refl
]
join-split delim (c ∷ d ∷ s) = elim (Bool-cases (c == delim)) [
  | inl same ↦ rw same (ground (arith, nat_key.beq_iff c delim, join-split delim (d ∷ s)))
  | inr other ↦ rw other (
      join-push_front delim c _ (split-cons delim d s) ∙ ap (λ t. c ∷ t) (join-split delim (d ∷ s)))
]

-- No piece has the delimiter in it, and the pieces, each with the delimiter behind it, are the text,
-- with one more delimiter at the end where the text is not empty and does not end in one.
pub split-join :
    (delim : ℕ) (s : Text)
    → NoDelimiter delim (split s delim) × (join_pieces delim (split s delim) ≡ s ++ missing delim s)
split-join delim s = (split-NoDelimiter delim s, join-split delim s)

-- The number that a text of digits writes
abbrev pub written_number : Text → ℕ
written_number [] = 0
written_number (c ∷ s) = (c - b'0') * 10 ^ length s + written_number s

add_digit : (acc d p w : ℕ) → (acc * 10 + d) * p + w ≡ acc * (p * 10) + (d * p + w)
add_digit acc d p w = grind arith

another_digit : (acc d n w : ℕ) → (acc * 10 + d) * 10 ^ n + w ≡ acc * 10 ^ suc n + (d * 10 ^ n + w)
another_digit acc d n w = simp unary_clauses (add_digit acc d (10 ^ n) w)

digits_value-written :
    (acc : ℕ) (s : Text) → digits_value acc s ≡ acc * 10 ^ length s + written_number s
digits_value-written acc [] = omega arith
digits_value-written acc (c ∷ s) =
    digits_value-written (acc * 10 + (c - b'0')) s
    ∙ another_digit acc (c - b'0') (length s) (written_number s)

zero_plus : (p w : ℕ) → 0 * p + w ≡ w
zero_plus p w = grind arith

digits_value-zero : (s : Text) → digits_value 0 s ≡ written_number s
digits_value-zero s = digits_value-written 0 s ∙ zero_plus (10 ^ length s) (written_number s)

-- What `atoi` makes of a number: the greatest `long` at most, of which 32 bits are kept
abbrev pub long_to_int : ℕ → ℕ
long_to_int n = min n (2 ^ 63 - 1) % 2 ^ 32

non_negative :
    (v port : ℕ)
    → port ≤ 65535
    → ((if ltb v (2 ^ 31) then some v else none) ≡ some port) ↔ (port ≡ v)
non_negative v port small = ((λ e. ground arith), λ e. ground arith)

atoi-written :
    (s : Text) (port : ℕ)
    → port ≤ 65535
    → (atoi s ≡ some port) ↔ (port ≡ long_to_int (written_number s))
unfolding atoi
atoi-written s port small =
    rw (digits_value-zero s) (non_negative (long_to_int (written_number s)) port small)

filter_arguments-atoi :
    (av1 av2 : Text) (port : ℕ) (password : Text)
    → (filter_arguments av1 av2 ≡ accepted_arguments port password) ↔ (
        (all_digits av1 ≡ true)
        × (atoi av1 ≡ some port)
        × (1024 ≤ port)
        × (port ≤ 65535)
        × (av2 ≡ password)
        × (1 ≤ length password)
        × (length password ≤ 10))
unfolding filter_arguments
filter_arguments-atoi av1 av2 port password = elim (Option-cases (atoi av1)) [
  | inl absent ↦ (λ e. ground arith, λ h. ground arith)
  | inr (n, value) ↦ (
    λ e. (
      ground arith,
      ground arith,
      ground arith,
      ground arith,
      ground arith,
      ground arith,
      ground arith,
    ),
    λ h. ground (arith, h.0, h.1),
  )
]

-- The program starts exactly with a port of digits and a password of 1 to 10 bytes, where the number
-- of these digits, cut at the greatest `long` and then to its low 32 bits, is from 1024 to 65535.
pub filter_arguments-bounds :
    (av1 av2 : Text) (port : ℕ) (password : Text)
    → (filter_arguments av1 av2 ≡ accepted_arguments port password) ↔ (
        (all_digits av1 ≡ true)
        × (port ≡ long_to_int (written_number av1))
        × (1024 ≤ port)
        × (port ≤ 65535)
        × (av2 ≡ password)
        × (1 ≤ length password)
        × (length password ≤ 10))
filter_arguments-bounds av1 av2 port password =
    let (there, back) = filter_arguments-atoi av1 av2 port password in
    (
      λ e.
          let (digits, value, low, high, same, some_byte, ten) = there e in
          (digits, (atoi-written av1 port high).0 value, low, high, same, some_byte, ten),
      λ (digits, value, low, high, same, some_byte, ten).
          back (digits, (atoi-written av1 port high).1 value, low, high, same, some_byte, ten),
    )
