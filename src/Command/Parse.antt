-- ===== src/Command/Parse.antt =====
-- `Server::getMessage`, and how `Command::run` makes words of a message.
use irc_protocol_server.Base.{
  ℤ, int_key, nat_key, Text, text_key, ◌==◌, ◌&&◌, ◌||◌, Option, none, some, List, [], ◌∷◌, ◌++◌,
  length, take, ltb, if◌then◌else◌, map,
}
use irc_protocol_server.Server.{M, pure, ◌>>◌, disconnect_client}
use irc_protocol_server.Util.{c_str, split, to_upper}

-- What `recv` gave: none is a negative result, and the empty text is 0.
abbrev pub Received : Type 0
Received = Option Text

-- A message of more than 512 bytes is cut to 510, and gets "\r\n" and a NUL.
unfoldable pub message_of : Text → Text
unfolding c_str
message_of bytes =
    if ltb 512 (length bytes) then take 510 bytes ++ (13 ∷ 10 ∷ 0 ∷ []) else c_str bytes

unfoldable pub get_message : ℤ → Received → M Text
get_message fd none = do disconnect_client fd; pure []
get_message fd (some []) = do disconnect_client fd; pure []
get_message fd (some (c ∷ rest)) = pure (message_of (c ∷ rest))

-- `substr(0, find_last_not_of("\r\n") + 1)`
unfoldable pub trim : Text → Text
trim [] = []
trim (c ∷ s) = let rest = trim s in if rest == [] && (c == 13 || c == 10) then [] else c ∷ rest

abbrev upper_first : List Text → List Text
upper_first [] = []
upper_first (w ∷ ws) = map to_upper w ∷ ws

-- `cmdVector`: the words between single spaces, the first in upper case
unfoldable pub cmd_words : Text → List Text
unfolding split trim to_upper
cmd_words message = upper_first (map trim (split message b' '))
