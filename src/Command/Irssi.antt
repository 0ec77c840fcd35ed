-- ===== src/Command/Irssi.antt =====
-- `Command::irssiSignUp`: PASS, NICK and USER in one message, a line each.
use irc_protocol_server.Base.{
  ℕ, zero, suc, ℤ, int_key, nat_key, Text, text, text_key, ◌==◌, Bool, ◌&&◌, ◌||◌, Option, none,
  some, List, [], ◌∷◌, ◌++◌, length, leb, if◌then◌else◌, map,
}
use irc_protocol_server.Server.{
  when◌act◌otherwise◌, M, pure, throw_exception, ◌>>=◌, ◌>>◌, for_each, lookup_client,
  modify_client,
}
use irc_protocol_server.Client.{Client, append_recive_buf, get_is_regist}
use irc_protocol_server.Error.{crlf}
use irc_protocol_server.Util.{split, to_upper}
use irc_protocol_server.Command.Pass.{pass}
use irc_protocol_server.Command.Nick.{nick}
use irc_protocol_server.Command.User.{user}

-- `isspace`
abbrev is_space : ℕ → Bool
is_space c = c == b' ' || leb 9 c && leb c 13

-- One `>>`: the word, and what the stream has behind it
abbrev read_rest : Text → Text × Text
read_rest [] = ([], [])
read_rest (c ∷ s) =
    let (word, rest) = read_rest s in if is_space c then ([], c ∷ s) else (c ∷ word, rest)

unfoldable pub read_word : Text → Text × Text
read_word [] = ([], [])
read_word (c ∷ s) = let later = read_word s in if is_space c then later else read_rest (c ∷ s)

-- The words that repeated `>>` reads; `fuel` bounds their number.
unfoldable pub read_words : ℕ → Text → List Text
unfolding read_word
read_words zero s = []
read_words (suc fuel) s =
    let (word, rest) = read_word s in
    let others = read_words fuel rest in if length word == 0 then [] else word ∷ others

-- `substr(find_first_not_of(" "))`: none is the exception where there is no such byte.
unfoldable pub skip_spaces : Text → Option Text
skip_spaces [] = none
skip_spaces (c ∷ s) = let later = skip_spaces s in if c == b' ' then later else some (c ∷ s)

abbrev user_vector : Text → Text → Text → Option Text → Option (List Text)
user_vector username hostname servername none = none
user_vector username hostname servername (some realname) =
    some (text "USER" ∷ username ∷ hostname ∷ servername ∷ realname ∷ [])

-- What is read behind "USER"
unfoldable pub user_words : Text → Option (List Text)
unfolding read_word skip_spaces
user_words rest =
    let (username, from_host) = read_word rest in
    let (hostname, from_server) = read_word from_host in
    let (servername, from_real) = read_word from_server in
    user_vector username hostname servername (skip_spaces from_real)

abbrev line_words : Text → List Text → Option (List Text)
line_words line (first ∷ second ∷ others) =
    if first == text "USER" then user_words (read_word line).1 else some (first ∷ second ∷ others)
line_words line words = some words

-- `cmdVector` of a line; none is the exception.
unfoldable pub irssi_words : Text → Option (List Text)
unfolding read_words user_words
irssi_words line = line_words line (read_words (length line) line)

abbrev pub irssi_command : ℤ → Option (List Text) → M (Unit {0})
irssi_command fd none = throw_exception
irssi_command fd (some []) = pure tt
irssi_command fd (some (verb ∷ words)) =
    let command = map to_upper verb in
    when command == text "PASS"
    act pass fd (verb ∷ words)
    otherwise when command == text "NICK"
    act nick fd (verb ∷ words)
    otherwise when command == text "USER"
    act user fd (verb ∷ words)
    otherwise pure tt

unfoldable pub irssi_line : ℤ → Text → M (Unit {0})
irssi_line fd line = irssi_command fd (irssi_words line)

abbrev welcome_text : Client → Text
welcome_text c =
    text ":IRC 001 "
    ++ (c.nick_name
        ++ (text " :Welcome to the Interget Relay Network "
            ++ (c.nick_name ++ (text "!" ++ (c.user_name ++ (text "@" ++ (c.host_name ++ crlf)))))))

-- The 001 line, to a client that is registered
unfoldable pub welcome : ℤ → M (Unit {0})
welcome fd = do
  found ← lookup_client fd
  elim found [
    | none ↦ pure tt
    | some client ↦
        when get_is_regist client
        act modify_client fd (append_recive_buf (welcome_text client))
        otherwise pure tt
  ]

unfoldable pub irssi_sign_up : ℤ → Text → M (Unit {0})
irssi_sign_up fd message = do for_each (split message 10) (irssi_line fd); welcome fd
