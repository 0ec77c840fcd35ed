-- ===== src/Tests/Handlers.antt =====
-- The theorems on handlers and events, applied to small servers
use irc_protocol_server.Client.{append_recive_buf, new_client}
use mathlib.Core.Option
use irc_protocol_server.Base.{
  suc, nat_key, pos, int_key, Text, text, text_key, ◌==◌, ◌≡◌, refl, inl, false, none, some, List,
  [], ◌∷◌, length, contains, arith, inr, text_eq, ℤ, find, true, count, keys, ◌≤◌, ◌++◌,
}
use irc_protocol_server.Server.Ensures.{Ensures}
use irc_protocol_server.Server.Links.{WellFormed}
use irc_protocol_server.Server.{with_nickname, disconnect_client, Server}
use irc_protocol_server.Util.{split}
use irc_protocol_server.Command.Join.{join, join_channel_argv, join_key_argv}
use irc_protocol_server.Command.Nick.{nick, free_nickname}
use irc_protocol_server.Events.{flush}
use irc_protocol_server.Safety.Live.{Live}
use irc_protocol_server.Safety.Joins.{join-Live}
use irc_protocol_server.Safety.Nick.{nick-WellFormed}
use irc_protocol_server.Safety.Renaming.{free_nickname-unused}
use irc_protocol_server.Safety.Connections.{disconnect_client-WellFormed}
use irc_protocol_server.Safety.SignIn.{KeysGiven, sign_in-WellFormed}
use irc_protocol_server.Safety.Closed.{Ghost, run-Ghost}
use irc_protocol_server.Safety.Sending.{emptied}
use irc_protocol_server.Safety.Sent.{lines, flush-lines}
use irc_protocol_server.Command.Dispatch.{sign_in, run}
use irc_protocol_server.Tests.Servers.{hall, hall-Live, hall-Known, two_channels, arrived, guest}

join-Live_example :
    Ensures (join (pos 4) (text "JOIN" ∷ two_channels ∷ [])) hall (λ _. Live (pos 4))
join-Live_example = join-Live (pos 4) (text "JOIN") two_channels [] hall (inl refl) hall-Live

disconnect_client-WellFormed_example : Ensures (disconnect_client (pos 4)) hall (λ _. WellFormed)
disconnect_client-WellFormed_example = disconnect_client-WellFormed (pos 4) hall hall-Live.well

nick-WellFormed_example :
    Ensures (nick (pos 4) (text "NICK" ∷ text "bob" ∷ [])) hall (λ _. WellFormed)
nick-WellFormed_example =
    nick-WellFormed (pos 4) (text "NICK" ∷ text "bob" ∷ []) hall hall-Live.well hall-Known

free_nickname-unused_example :
    (unused : Text) × (free_nickname (suc (length hall.client_list)) (text "*") hall.client_list
      ≡ some unused)
    × (with_nickname unused hall.client_list ≡ none)
free_nickname-unused_example = free_nickname-unused (text "*") hall.client_list

abbrev join_words : List Text
join_words = two_channels ∷ text "k1,k2" ∷ []

join_words-KeysGiven : KeysGiven join_words
unfolding join_channel_argv join_key_argv split contains text_eq
join_words-KeysGiven = inr (omega arith)

other_verb {ℓ} : {A : Type ℓ} (verb : Text) → (text "JOIN" == verb) ≡ false → text "JOIN" ≡ verb → A
other_verb verb differ same = absurd (ground (arith, text_key.beq_iff (text "JOIN") verb))

sign_in-WellFormed_example :
    Ensures (sign_in (pos 4) (text "JOIN" ∷ join_words)) hall (λ _. WellFormed)
unfolding text_eq
sign_in-WellFormed_example =
    sign_in-WellFormed (pos 4) (text "JOIN") join_words hall (other_verb (text "PRIVMSG") refl)
      (other_verb (text "KICK") refl) (λ _. join_words-KeysGiven) hall-Live

run-Ghost_example : Ensures (run (pos 4) (some [])) hall (λ _. Ghost (pos 4))
run-Ghost_example = run-Ghost (pos 4) (some []) hall hall-Live.well hall-Known (inr refl)

-- Two clients, the first of which has a line waiting
abbrev talk : Server
talk = record arrived {
  client_list =
      (pos 4, append_recive_buf (text "PONG\r\n") guest) ∷ (pos 5, new_client (pos 5) true) ∷ [];
}

talk-Distinct : (fd : ℤ) → count fd (keys talk.client_list) ≤ 1
unfolding count
talk-Distinct fd = ground (arith, int_key.beq_iff (pos 4) fd, int_key.beq_iff (pos 5) fd)

flush-lines_example : Ensures flush talk (λ _ t.
    (t ≡ record talk { client_list = t.client_list; sent = talk.sent ++ lines talk.client_list })
    × ((j : ℤ) → find j t.client_list ≡ Option.map emptied (find j talk.client_list)))
flush-lines_example = flush-lines talk talk-Distinct
