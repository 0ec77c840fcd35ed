-- ===== src/Rules/Messages.antt =====
-- The words that `Command::run` of IRC_PROTOCOL_SERVER/src/Command.cpp reads from a message
use mathlib.Core.List.{append_assoc}
use irc_protocol_server.Base.{
  nat_key, Text, text_key, ◌≡◌, refl, ap, false, List, [], ◌∷◌, ◌++◌, contains, map, arith, text_eq,
}
use irc_protocol_server.Util.{split, unwords, to_upper}
use irc_protocol_server.Command.Parse.{trim, cmd_words}

-- No space, and no end of a line
abbrev pub Clean : Text → Type 0
Clean w = (contains b' ' w ≡ false) × ((contains 13 w ≡ false) × (contains 10 w ≡ false))

abbrev pub AllClean : List Text → Type 0
AllClean [] = Unit {0}
AllClean (w ∷ ws) = Clean w × AllClean ws

-- "\r\n"
abbrev pub line_end : Text
line_end = 13 ∷ 10 ∷ []

split-word :
    (w rest : Text)
    → contains b' ' w ≡ false
    → split (w ++ (b' ' ∷ rest)) b' ' ≡ w ∷ split rest b' '
unfolding split contains
split-word [] rest e = refl
split-word (c ∷ w) rest e = ground (arith, split-word w rest)

split-last :
    (w : Text) → contains b' ' w ≡ false → split (w ++ line_end) b' ' ≡ (w ++ line_end) ∷ []
unfolding split contains
split-last [] e = refl
split-last (c ∷ w) e = ground (arith, split-last w)

trim-word : (w : Text) → contains 13 w ≡ false → contains 10 w ≡ false → trim w ≡ w
unfolding trim contains
trim-word [] e f = refl
trim-word (c ∷ w) e f = ground (arith, trim-word w)

trim-line_end :
    (w : Text) → contains 13 w ≡ false → contains 10 w ≡ false → trim (w ++ line_end) ≡ w
unfolding trim contains text_eq
trim-line_end [] e f = refl
trim-line_end (c ∷ w) e f = ground (arith, trim-line_end w)

map-trim-split :
    (w : Text) (ws : List Text)
    → AllClean (w ∷ ws)
    → map trim (split (unwords (w ∷ ws) ++ line_end) b' ') ≡ w ∷ ws
unfolding unwords
map-trim-split w [] ((spaces, (cr, lf)), _) =
    rw (split-last w spaces) (ap (λ v. v ∷ []) (trim-line_end w cr lf))
map-trim-split w (v ∷ ws) ((spaces, (cr, lf)), rest) =
    rw
      (
        append_assoc w (b' ' ∷ unwords (v ∷ ws)) line_end,
        split-word w (unwords (v ∷ ws) ++ line_end) spaces,
        trim-word w cr lf,
      )
      (ap (λ vs. w ∷ vs) (map-trim-split v ws rest))

-- A line of words with no space and no end of a line in them, a space between two of them and "\r\n"
-- behind the last, is read as these words, the first one in upper case.
pub cmd_words-unwords :
    (verb : Text) (words : List Text)
    → AllClean (verb ∷ words)
    → cmd_words (unwords (verb ∷ words) ++ line_end) ≡ map to_upper verb ∷ words
unfolding cmd_words
cmd_words-unwords verb words clean = rw (map-trim-split verb words clean) refl
