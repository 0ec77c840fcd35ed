-- ===== src/Tests/Powers.antt =====
-- The theorems on who may do what and who gets what, applied to small servers
use irc_protocol_server.Rules.Flags.{with_flags, mode-with_flags}
use irc_protocol_server.Command.Kick.{kick}
use irc_protocol_server.Roster.{Refines}
use irc_protocol_server.Roster.Kicking.{operates, kicks}
use irc_protocol_server.Roster.Kicks.{kick-Refines}
use irc_protocol_server.Rules.Reading.{run-sign_in}
use irc_protocol_server.Rules.Messages.{AllClean, line_end, cmd_words-unwords}
use irc_protocol_server.Command.Parse.{cmd_words}
use irc_protocol_server.Rules.Topic.{AsksFor, Topical, topic-Topical}
use irc_protocol_server.Rules.Heralds.{nick_line}
use irc_protocol_server.Rules.Renaming.{nick_at, hears, nick-renames}
use irc_protocol_server.Authority.Scope.{SameBut, mode-SameBut}
use irc_protocol_server.Safety.Live.{Live}
use irc_protocol_server.Channel.{
  diff_client_in_channel, diff_operator, diff_mode, append_fd_list_client, new_channel,
}
use irc_protocol_server.Command.Mode.{mode}
use irc_protocol_server.Command.Topic.{topic}
use irc_protocol_server.Command.Nick.{nick, nick_name_validate}
use mathlib.Core.Option
use irc_protocol_server.Base.{
  ℤ, pos, int_key, nat_key, Text, text, text_key, ◌≡◌, refl, some, List, [], ◌∷◌, ◌++◌, find,
  contains, find, text_eq, arith, ◌==◌, if◌then◌else◌, map,
}
use irc_protocol_server.Client.{
  find_channel, append_channel_list, set_regi_user, set_regi_nick, set_regi_pass, new_client,
  get_is_regist,
}
use irc_protocol_server.Server.Ensures.{Ensures}
use irc_protocol_server.Server.Keeps.{Keeps}
use irc_protocol_server.Util.{
  split, head_is, channel_message, is_digit, is_alnum, is_special_char, unwords, to_upper, is_infix,
}
use irc_protocol_server.Command.Dispatch.{run, sign_in}
use irc_protocol_server.Command.Privmsg.{privmsg}
use irc_protocol_server.Authority.{without, guarded, Held}
use irc_protocol_server.Authority.Run.{run-guarded}
use irc_protocol_server.Rules.Delivery.{buffer_at}
use irc_protocol_server.Rules.Mail.{mails, AllReached}
use irc_protocol_server.Rules.Privmsg.{privmsg-mails}
use irc_protocol_server.Tests.Servers.{lobby, hall, hall-Live}
use irc_protocol_server.Tests.Guests.{
  party, party-Live, party_channel, party-lobby, party-powerless, party-no_ghost, newcomer,
  party-newcomer, party-Genuine, party-nobody, host, reunion, reunion-host, reunion-Live,
}

-- A mode that the client may not set
abbrev forbidden : Text
forbidden = text "MODE #a +i" ++ (13 ∷ 10 ∷ [])

run-guarded_example : Keeps (run (pos 5) (some forbidden)) party (λ _ t.
    Held
      (pos 5)
      (guarded (pos 5) party_channel)
      (without (pos 5) party_channel.client_fd_list ≡ [])
      (find lobby t.channel_list))
run-guarded_example =
    run-guarded (pos 5) (some forbidden) party lobby party_channel party-Live.well party-lobby
      party-powerless party-no_ghost

in_lobby : AllReached party newcomer (split lobby b',')
unfolding split find_channel contains append_channel_list head_is set_regi_user set_regi_nick
    set_regi_pass new_client text_eq
in_lobby = ((λ channel. refl, λ other. ground arith), tt)

privmsg-mails_example :
    Ensures (privmsg (pos 5) (text "PRIVMSG" ∷ lobby ∷ text "hi" ∷ [])) party (λ _ t.
      (j : ℤ)
      → buffer_at t j
        ≡ Option.map
            (λ sent.
              sent
              ++ mails party
                  (pos 5)
                  newcomer
                  (text "PRIVMSG")
                  (channel_message 2 (text "PRIVMSG" ∷ lobby ∷ text "hi" ∷ []))
                  j
                  (split lobby b','))
            (buffer_at party j))
privmsg-mails_example =
    privmsg-mails (pos 5) (text "PRIVMSG") lobby (text "hi") [] party newcomer party-Live.well
      party-newcomer in_lobby

abbrev renaming : List Text
renaming = text "NICK" ∷ text "bob" ∷ []

nick-renames_example : Ensures (nick (pos 5) renaming) party (λ _ t.
    ((j : ℤ) → nick_at t j ≡ (if pos 5 == j then some (text "bob") else nick_at party j))
    × ((j : ℤ)
        → buffer_at t j ≡ (
            if hears party.channel_list j (pos 5) newcomer.channel_list
            then Option.map (λ sent. sent ++ nick_line newcomer (text "bob")) (buffer_at party j)
            else buffer_at party j)))
unfolding append_channel_list set_regi_user set_regi_nick set_regi_pass new_client
    nick_name_validate is_digit is_alnum is_special_char
nick-renames_example =
    nick-renames (pos 5) (text "bob") [] party newcomer party-Live.well party-Genuine party-newcomer
      refl party-nobody refl

topic-Topical_example :
    Ensures (topic (pos 5) (text "TOPIC" ∷ lobby ∷ text ":hello" ∷ [])) party (λ _ t.
      (new : Text) × AsksFor (text ":hello") [] new
      × Topical party lobby party_channel newcomer new t)
unfolding diff_client_in_channel diff_mode contains append_fd_list_client new_channel
topic-Topical_example =
    topic-Topical (pos 5) (text "TOPIC") lobby (text ":hello") [] party newcomer party_channel
      party-Live.well party-newcomer party-lobby refl refl

mode-SameBut_example :
    Ensures
      (mode (pos 4) (text "MODE" ∷ lobby ∷ text "+itk-l" ∷ text "key" ∷ []))
      hall
      (λ _ t. Live (pos 4) t × SameBut lobby hall t)
mode-SameBut_example =
    mode-SameBut (pos 4) (text "MODE") lobby (text "+itk-l" ∷ text "key" ∷ []) hall hall-Live

abbrev words_of_mode : List Text
words_of_mode = lobby ∷ text "+i" ∷ []

mode-AllClean : AllClean (text "mode" ∷ words_of_mode)
unfolding contains
mode-AllClean = ((refl, (refl, refl)), ((refl, (refl, refl)), ((refl, (refl, refl)), tt)))

cmd_words-unwords_example :
    cmd_words (unwords (text "mode" ∷ words_of_mode) ++ line_end)
    ≡ map to_upper (text "mode") ∷ words_of_mode
cmd_words-unwords_example = cmd_words-unwords (text "mode") words_of_mode mode-AllClean

run-sign_in_example :
    run (pos 5) (some (unwords (text "mode" ∷ words_of_mode) ++ line_end)) party
    ≡ sign_in (pos 5) (map to_upper (text "mode") ∷ words_of_mode) party
unfolding contains unwords is_infix get_is_regist append_channel_list set_regi_user set_regi_nick
    set_regi_pass new_client text_eq
run-sign_in_example =
    run-sign_in (pos 5) (text "mode") words_of_mode party newcomer mode-AllClean (omega arith) refl
      refl refl party-newcomer refl refl

-- The operator kicks bob.
kick-Refines_example : Refines (kick (pos 4) (text "KICK" ∷ lobby ∷ text "bob" ∷ [])) reunion (λ r.
    if operates (pos 4) reunion.channel_list (split lobby b',')
    then kicks reunion.client_list reunion.channel_list host.nick_name
        (split lobby b',')
        (split (text "bob") b',')
        r
    else r)
unfolding split
kick-Refines_example =
    kick-Refines (pos 4) (text "KICK") lobby (text "bob") [] reunion host reunion-host (omega arith)
      reunion-Live

mode-with_flags_example :
    Ensures
      (mode (pos 4) (text "MODE" ∷ lobby ∷ text "+it-i" ∷ []))
      reunion
      (λ _ t. find lobby t.channel_list ≡ some (with_flags 0 (text "+it-i") party_channel))
unfolding append_fd_list_client new_channel diff_operator contains text_eq append_channel_list
    set_regi_user set_regi_nick set_regi_pass new_client
mode-with_flags_example =
    mode-with_flags (pos 4) (text "MODE") lobby (text "+it-i") [] reunion host party_channel
      reunion-Live reunion-host refl party-lobby refl refl refl
