-- ===== src/Command/Nick.antt =====
-- IRC_PROTOCOL_SERVER/command/Nick.cpp
use irc_protocol_server.Base.{
  ℕ, zero, suc, ℤ, int_key, nat_key, Text, text, text_key, ◌==◌, Bool, true, false, not, ◌&&◌, ◌||◌,
  Option, none, some, List, [], ◌∷◌, ◌++◌, length, ltb, Map,
}
use irc_protocol_server.Server.{
  when◌act◌otherwise◌, M, pure, for_ever, gets, modify, ◌>>=◌, ◌>>◌, for_each, client_at,
  modify_client, find_channel, with_nickname,
}
use irc_protocol_server.Client.{Client, append_recive_buf, set_regi_nick, set_nickname}
use irc_protocol_server.Error.{
  crlf, error_nonicknamegiven_431, error_erroneusnickname_432, error_nicknameinuse_433,
  error_notregistered_451,
}
use irc_protocol_server.Util.{
  is_digit, is_alnum, is_special_char, client_prefix, message_all_channel,
}
use irc_protocol_server.Command.Pass.{turn_away}

abbrev all_ok : Text → Bool
all_ok [] = true
all_ok (c ∷ rest) = (is_alnum c || is_special_char c) && all_ok rest

abbrev first_ok : Text → Bool
first_ok [] = false
first_ok (c ∷ rest) = not (is_digit c) && all_ok rest

unfoldable pub nick_name_validate : Text → Bool
unfolding is_digit is_alnum is_special_char
nick_name_validate nickname = not (ltb 9 (length nickname)) && first_ok nickname

-- True if nobody has the nickname.
unfoldable pub nickname_duplicate : Text → Map ℤ Client → Bool
nickname_duplicate nickname [] = true
nickname_duplicate nickname ((fd, c) ∷ m) =
    not (c.nick_name == nickname) && nickname_duplicate nickname m

abbrev used_name : Option (ℤ × Client) → Option Text
used_name none = none
used_name (some (fd, c)) = some c.nick_name

-- `while (1)`: a nickname that is taken gets a '_'. `none` means that the fuel ran out.
unfoldable pub free_nickname : ℕ → Text → Map ℤ Client → Option Text
unfolding with_nickname
free_nickname zero name m = none
free_nickname (suc fuel) name m = elim (used_name (with_nickname name m)) [
  | none ↦ some name
  | some taken ↦ free_nickname fuel (taken ++ text "_") m
]

-- The NICK line, to one channel of the client
unfoldable pub announce_nick : ℤ → Text → Text → M (Unit {0})
announce_nick fd name channel_name = do
  found ← find_channel channel_name
  elim found [
    | none ↦ pure tt
    | some channel ↦ message_all_channel fd channel.channel_name (text "NICK") name
  ]

abbrev pub announce_to : ℤ → Text → Text → Client → List Text → M (Unit {0})
announce_to fd verb name client [] = modify_client fd (
    append_recive_buf
      (client_prefix client ++ (text " " ++ (verb ++ (text " :" ++ (name ++ crlf))))))
announce_to fd verb name client (channel ∷ channels) =
    for_each (channel ∷ channels) (announce_nick fd name)

abbrev pub announce : ℤ → Text → Text → Client → M (Unit {0})
announce fd verb name client = announce_to fd verb name client client.channel_list

unfoldable pub change_nick : ℤ → Text → Text → M (Unit {0})
change_nick fd verb name = do
  client ← client_at fd
  modify (λ s. record s { send_nick_list = [] })
  announce fd verb name client
  modify_client fd (set_nickname name)
  modify_client fd (set_regi_nick true)

abbrev pub nick_checked : ℤ → Text → Option Text → M (Unit {0})
nick_checked fd verb none = for_ever
nick_checked fd verb (some name) =
    when not (nick_name_validate name)
    act (do
      modify_client fd error_erroneusnickname_432
      modify_client fd (
          append_recive_buf
            (text "/NICK <nickname> First Letter is not digit and length is under 10." ++ crlf)))
    otherwise do
      unused ← gets (λ s. nickname_duplicate name s.client_list)
      when unused act change_nick fd verb name otherwise modify_client fd error_nicknameinuse_433

unfoldable pub nick_given : ℤ → List Text → M (Unit {0})
nick_given fd (verb ∷ wanted ∷ rest) = do
  found ← gets (λ s. free_nickname (suc (length s.client_list)) wanted s.client_list)
  nick_checked fd verb found
nick_given fd _ = modify_client fd error_nonicknamegiven_431

unfoldable pub nick : ℤ → List Text → M (Unit {0})
nick fd cmd_vector = do
  client ← client_at fd
  when client.is_regi_pass
      act nick_given fd cmd_vector
      otherwise turn_away fd error_notregistered_451
