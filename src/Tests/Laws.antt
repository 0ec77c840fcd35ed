-- ===== src/Tests/Laws.antt =====
-- The laws of guards, modes, texts, numbers and arguments, applied to small inputs
use irc_protocol_server.Base.{
  ◌≤◌, nat_key, pos, int_key, text, text_key, ◌==◌, ◌≡◌, ◌↔◌, refl, true, false, some, [], ◌∷◌,
  ◌++◌, length, contains, count, if◌then◌else◌, arith, get_elem?, Text,
}
use irc_protocol_server.Client.{new_client}
use irc_protocol_server.Channel.{Channel, set_mode, diff_mode, get_mode, diff_operator, flag_after}
use irc_protocol_server.Server.Ensures.{Ensures}
use irc_protocol_server.Util.{split, all_digits}
use irc_protocol_server.Command.Join.{admitted, admission}
use irc_protocol_server.Command.Pass.{pass}
use irc_protocol_server.Events.{filter_arguments, accepted_arguments}
use irc_protocol_server.Util.{int_to_string}
use irc_protocol_server.Command.Mode.{limit_of}
use irc_protocol_server.Rules.Numbers.{limit_of-int_to_string}
use irc_protocol_server.Rules.Pass.{HasPassed, pass-HasPassed}
use irc_protocol_server.Rules.Join.{MayEnter, admission-MayEnter}
use irc_protocol_server.Rules.Modes.{
  DistinctOperators, contains-get_mode, diff_operator-set_mode, set_mode-DistinctOperators,
}
use irc_protocol_server.Rules.Texts.{
  NoDelimiter, join_pieces, missing, split-join, written_number, long_to_int,
  filter_arguments-bounds,
}
use irc_protocol_server.Tests.Servers.{arrived, arrived-client, lobby, two_channels}

-- A channel that wants a key and an invitation, and has room for one
abbrev locked_room : Channel
locked_room = record {
  channel_name = lobby;
  operator_fd_list = pos 4 ∷ [];
  client_fd_list = pos 4 ∷ [];
  invite_fd_list = pos 5 ∷ [];
  topic = [];
  key = text "k";
  invite_status = true;
  topic_status = false;
  key_status = true;
  limit_status = true;
  limit = 2;
}

admission-MayEnter_example :
    (admission (pos 5) 3 (text "k" ∷ []) 0 locked_room ≡ admitted)
    ↔ MayEnter (pos 5) 3 (text "k" ∷ []) 0 locked_room
admission-MayEnter_example = admission-MayEnter (pos 5) 3 (text "k" ∷ []) 0 locked_room

contains-get_mode_example : contains b'k' (get_mode locked_room) ≡ diff_mode b'k' locked_room
contains-get_mode_example = contains-get_mode b'k' locked_room

locked_room-DistinctOperators : DistinctOperators locked_room
unfolding count
locked_room-DistinctOperators fd = ground arith

diff_operator-set_mode_example : diff_operator (pos 5) (set_mode b'o' b'+' (pos 5) locked_room) ≡ (
    if pos 5 == pos 5
    then flag_after b'+' (diff_operator (pos 5) locked_room)
    else diff_operator (pos 5) locked_room)
diff_operator-set_mode_example =
    diff_operator-set_mode (pos 5) (pos 5) b'+' locked_room locked_room-DistinctOperators

set_mode-DistinctOperators_example : DistinctOperators (set_mode b'o' b'+' (pos 4) locked_room)
set_mode-DistinctOperators_example =
    set_mode-DistinctOperators b'o' b'+' (pos 4) locked_room locked_room-DistinctOperators

split-join_example :
    NoDelimiter b',' (split two_channels b',')
    × (join_pieces b',' (split two_channels b',') ≡ two_channels ++ missing b',' two_channels)
split-join_example = split-join b',' two_channels

-- 2 ^ 32 more than 1024
abbrev long_port : Text
long_port = text "4294968320"

filter_arguments-bounds_example :
    (filter_arguments long_port (text "secret") ≡ accepted_arguments 1024 (text "secret")) ↔ (
      (all_digits long_port ≡ true)
      × (1024 ≡ long_to_int (written_number long_port))
      × (1024 ≤ 1024)
      × (1024 ≤ 65535)
      × (text "secret" ≡ text "secret")
      × (1 ≤ length (text "secret"))
      × (length (text "secret") ≤ 10))
filter_arguments-bounds_example =
    filter_arguments-bounds long_port (text "secret") 1024 (text "secret")

long_port-accepted :
    filter_arguments long_port (text "secret") ≡ accepted_arguments 1024 (text "secret")
unfolding filter_arguments
long_port-accepted = refl

pass-HasPassed_example : Ensures (pass (pos 4) (text "PASS" ∷ text "wrong" ∷ [])) arrived (λ _ t.
    HasPassed (pos 4) t ↔ (get_elem? (text "PASS" ∷ text "wrong" ∷ []) 1 ≡ some (text "secret")))
unfolding new_client
pass-HasPassed_example =
    pass-HasPassed (pos 4) (text "PASS" ∷ text "wrong" ∷ []) arrived (new_client (pos 4) false)
      arrived-client refl

limit_of-int_to_string_example : limit_of (int_to_string 25) ≡ some 25
limit_of-int_to_string_example = limit_of-int_to_string 25 (omega arith)
