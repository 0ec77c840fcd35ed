-- ===== src/Tests/Members.antt =====
-- The theorems on JOIN, KICK, broadcasts, messages in parts and registration, applied to small
-- servers
use irc_protocol_server.Server.Counts.{put_client}
use irc_protocol_server.Command.Parse.{cmd_words}
use mathlib.Core.Option
use irc_protocol_server.Base.{
  pos, int_key, nat_key, Text, text, text_key, ◌==◌, ◌&&◌, not, ◌≡◌, refl, false, some, List, [],
  ◌∷◌, ◌++◌, find, if◌then◌else◌, arith, contains, text_eq, ℤ,
}
use irc_protocol_server.Client.{Client, new_client}
use irc_protocol_server.Channel.{Channel}
use irc_protocol_server.Server.{with_nickname, for_each, ◌>>=◌}
use irc_protocol_server.Server.Ensures.{Ensures}
use irc_protocol_server.Util.{message_all_channel, broadcast_line, is_infix}
use irc_protocol_server.Command.Join.{join_channel, is_channel_name}
use irc_protocol_server.Command.Dispatch.{run_message, dispatch}
use irc_protocol_server.Safety.Joins.{opened, opened-channel}
use irc_protocol_server.Safety.Part.{update-channel}
use irc_protocol_server.Channel.{append_fd_list_client, new_channel}
use irc_protocol_server.Roster.{Refines}
use irc_protocol_server.Roster.Join.{decided, lets_in, join_channel-Refines}
use irc_protocol_server.Rules.Delivery.{buffer_at, message_all_channel-deliver}
use irc_protocol_server.Base.{insert, place, true}
use irc_protocol_server.Client.{get_is_regist}
use irc_protocol_server.Util.{is_digit, is_alnum, is_special_char}
use irc_protocol_server.Command.Pass.{pass}
use irc_protocol_server.Command.Nick.{nick, nick_name_validate}
use irc_protocol_server.Command.User.{user}
use irc_protocol_server.Rules.Registration.{user-get_is_regist}
use irc_protocol_server.Rules.Parts.{AllParts, joined_parts, nothing_kept, run_message-dispatch}
use irc_protocol_server.Tests.Servers.{hall, hall-Live, let_in, lobby, arrived, arrived-client}

join_channel-Refines_example : Refines (join_channel (pos 4) 2 ([] ∷ []) 0 (text "#b")) hall (
    decided
      (is_channel_name (text "#b")
        && lets_in (pos 4) 2 ([] ∷ []) 0 (find (text "#b") hall.channel_list))
      (pos 4)
      (text "#b"))
join_channel-Refines_example =
    join_channel-Refines (pos 4) 2 ([] ∷ []) 0 (text "#b") hall (omega arith) hall-Live

abbrev full_lobby : Channel
full_lobby = append_fd_list_client (pos 4) (new_channel lobby (pos 4))

lobby-there : find lobby hall.channel_list ≡ some full_lobby
unfolding find
lobby-there =
    update-channel lobby (append_fd_list_client (pos 4)) (opened (pos 4) lobby let_in)
      (new_channel lobby (pos 4)) (opened-channel (pos 4) lobby let_in refl)

message_all_channel-deliver_example :
    Ensures (message_all_channel (pos 4) lobby (text "TOPIC") (text "hi")) hall (λ _ t.
      (j : ℤ)
      → buffer_at t j ≡ (
          if contains j full_lobby.client_fd_list
            && not (pos 4 == j && text "TOPIC" == text "PRIVMSG")
          then Option.map
              (λ sent. sent ++ broadcast_line hall-Live.client lobby (text "TOPIC") (text "hi"))
              (buffer_at hall j)
          else buffer_at hall j))
unfolding text_eq
message_all_channel-deliver_example =
    message_all_channel-deliver (pos 4) lobby (text "TOPIC") (text "hi") hall hall-Live.client
      full_lobby hall-Live.well hall-Live.here lobby-there refl

abbrev pieces : List Text
pieces = text "NI" ∷ text "CK bo" ∷ []

pieces-AllParts : AllParts pieces
unfolding is_infix contains text_eq
pieces-AllParts = ((refl, refl), ((refl, refl), tt))

run_message-dispatch_example :
    (for_each pieces (run_message (pos 4)) >>= λ _. run_message (pos 4) (text "b\n")) arrived
    ≡ dispatch
        (pos 4)
        (cmd_words ([] ++ (joined_parts pieces ++ text "b\n")))
        (put_client (pos 4) nothing_kept arrived)
unfolding new_client is_infix contains text_eq
run_message-dispatch_example =
    run_message-dispatch (pos 4) (text "NI") (text "CK bo" ∷ []) (text "b\n") arrived
      (new_client (pos 4) false) pieces-AllParts refl refl refl arrived-client

user-get_is_regist_example :
    Ensures
      (pass (pos 4) (text "PASS" ∷ arrived.password ∷ []) >>= λ _.
        (nick (pos 4) (text "NICK" ∷ text "bob" ∷ []) >>= λ _.
        user (pos 4) (text "USER" ∷ text "b" ∷ text "h" ∷ text "s" ∷ text "Bob" ∷ [])))
      arrived
      (λ _ t.
        (d : Client) × (find (pos 4) t.client_list ≡ some d)
        × (get_is_regist d ≡ true)
        × (d.nick_name ≡ text "bob"))
unfolding with_nickname new_client insert place nick_name_validate is_digit is_alnum is_special_char
    text_eq find
user-get_is_regist_example =
    user-get_is_regist (pos 4) false (text "bob") (text "b") (text "h") (text "s") (text "Bob")
      arrived arrived-client refl refl
