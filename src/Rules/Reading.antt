-- ===== src/Rules/Reading.antt =====
-- From the bytes of a message to the handler: `Command::run` and `act` of
-- IRC_PROTOCOL_SERVER/src/Command.cpp
use irc_protocol_server.Base.{
  ◌≤◌, ℤ, int_key, nat_key, Text, text, text_key, ◌&&◌, ◌≡◌, refl, ap, true, false, some, List, [],
  ◌∷◌, ◌++◌, contains, find, insert_present, length, map, arith,
}
use irc_protocol_server.Client.{Client, default_client, get_is_regist}
use irc_protocol_server.Server.{
  Server, ok, pure, ◌>>=◌, when◌act◌otherwise◌, gets, modify, lookup_client, client_at,
  index_client,
}
use irc_protocol_server.Util.{c_str, is_infix, unwords, to_upper}
use irc_protocol_server.Command.Parse.{message_of, get_message}
use irc_protocol_server.Command.Dispatch.{sign_in, dispatch, take_eof_buffer, run_message, run}
use irc_protocol_server.Rules.Messages.{AllClean, line_end, cmd_words-unwords}

c_str-whole : (m : Text) → contains 0 m ≡ false → c_str m ≡ m
unfolding c_str contains
c_str-whole [] e = refl
c_str-whole (c ∷ m) e = ground (arith, c_str-whole m)

-- A message that fits, with no NUL in it, is taken as it is.
get_message-whole :
    (fd : ℤ) (m : Text) (s : Server)
    → contains 10 m ≡ true
    → contains 0 m ≡ false
    → length m ≤ 512
    → get_message fd (some m) s ≡ ok m s
unfolding get_message message_of pure contains
get_message-whole fd [] s line whole fits = ground arith
get_message-whole fd (c ∷ m) s line whole fits =
    ap (λ k. ok k s) (ground (arith, c_str-whole (c ∷ m) whole))

-- Nothing is put in front of it where nothing was kept.
take_eof_buffer-nothing :
    (fd : ℤ) (m : Text) (s : Server) (c : Client)
    → find fd s.client_list ≡ some c
    → c.eof_flag ≡ false
    → take_eof_buffer fd m s ≡ ok m s
unfolding take_eof_buffer index_client client_at lookup_client gets modify pure ◌>>=◌
    when◌act◌otherwise◌
take_eof_buffer-nothing fd m s c here nothing =
    rw (insert_present fd (default_client false) c s.client_list here, here, nothing) refl

line-contains : (m : Text) → contains 10 (m ++ line_end) ≡ true
unfolding contains
line-contains [] = refl
line-contains (c ∷ m) = ground (arith, line-contains m)

dispatch-sign_in :
    (fd : ℤ) (cmd_vector : List Text) (s : Server) (c : Client)
    → find fd s.client_list ≡ some c
    → get_is_regist c ≡ true
    → dispatch fd cmd_vector s ≡ sign_in fd cmd_vector s
unfolding dispatch lookup_client gets ◌>>=◌ when◌act◌otherwise◌
dispatch-sign_in fd cmd_vector s c here inside = rw (here, inside) refl

-- A message with an end of a line that fits in 512 bytes, with no NUL in it, neither "CAP LS" nor all
-- of "PASS", "NICK" and "USER", of a client that has registered and of which no part of a message is
-- kept: where it is words with no space and no end of a line in them, a space between two of them and
-- "\r\n" at the end, `run` does what `signIn` does with these words, the first one in upper case.
pub run-sign_in :
    (fd : ℤ) (verb : Text) (words : List Text) (s : Server) (c : Client)
    → AllClean (verb ∷ words)
    → length (unwords (verb ∷ words) ++ line_end) ≤ 512
    → contains 0 (unwords (verb ∷ words) ++ line_end) ≡ false
    → is_infix (text "CAP LS") (unwords (verb ∷ words) ++ line_end) ≡ false
    → (is_infix (text "PASS") (unwords (verb ∷ words) ++ line_end)
        && (is_infix (text "NICK") (unwords (verb ∷ words) ++ line_end)
            && is_infix (text "USER") (unwords (verb ∷ words) ++ line_end)))
      ≡ false
    → find fd s.client_list ≡ some c
    → get_is_regist c ≡ true
    → c.eof_flag ≡ false
    → run fd (some (unwords (verb ∷ words) ++ line_end)) s
      ≡ sign_in fd (map to_upper verb ∷ words) s
unfolding run run_message ◌>>=◌ when◌act◌otherwise◌
run-sign_in fd verb words s c clean fits whole no_cap no_irssi here inside nothing =
    let m = unwords (verb ∷ words) ++ line_end in
    let line = line-contains (unwords (verb ∷ words)) in
    rw
      (
        get_message-whole fd m s line whole fits,
        no_cap,
        line,
        no_irssi,
        take_eof_buffer-nothing fd m s c here nothing,
        cmd_words-unwords verb words clean,
      )
      (dispatch-sign_in fd (map to_upper verb ∷ words) s c here inside)
