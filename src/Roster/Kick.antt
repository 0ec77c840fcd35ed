-- ===== src/Roster/Kick.antt =====
-- IRC_PROTOCOL_SERVER/command/Kick.cpp and the specification of leaving
use irc_protocol_server.Base.{
  ℤ, int_key, negsuc, nat_key, Text, text, text_key, ◌==◌, ◌&&◌, not, ◌≡◌, refl, true, false,
  Option, none, some, List, ◌∷◌, find, if◌then◌else◌, arith,
}
use irc_protocol_server.Client.{Client}
use irc_protocol_server.Channel.{Channel, diff_client_in_channel}
use irc_protocol_server.Error.{
  error_nosuchnick_401, error_nosuchchannel_403, error_usernotinchannel_441,
}
use irc_protocol_server.Server.{Server, with_nickname}
use irc_protocol_server.Server.Ensures.{Ensures-bind, Ensures-mono, Ensures-when, Ensures-pure}
use irc_protocol_server.Server.Links.{Known, Same-Known, Same-member, Same-WellFormed}
use irc_protocol_server.Server.Nicknames.{with_nickname-found}
use irc_protocol_server.Server.Quiet.{with_channel, with_named, at_client}
use irc_protocol_server.Util.Quiet.{message_all_channel-Quiet}
use irc_protocol_server.Command.Kick.{expel, kick_found, kick_channel}
use irc_protocol_server.Safety.Live.{Live, Live-Known, Same-channel}
use irc_protocol_server.Safety.Kick.{removal-Ensures, target_key}
use irc_protocol_server.Roster.{Roster, leave, Refines}
use irc_protocol_server.Roster.Part.{left-HasRoster}
use irc_protocol_server.Roster.Join.{refused-HasRoster}

-- Whom a round of KICK takes out: the client with the nickname, if it is a member and not the
-- operator.
abbrev pub kicked : Client → Text → Option Channel → Option (ℤ × Client) → Roster → Roster
kicked operator name none found r = r
kicked operator name (some ch) none r = r
kicked operator name (some ch) (some (target, client)) r =
    if not (client.fd == negsuc 0)
      && (not (client.nick_name == operator.nick_name) && diff_client_in_channel client.fd ch)
    then leave target name r
    else r

expel-HasRoster :
    (fd : ℤ) (name message : Text) (target : ℤ) (client : Client) (s : Server) (ch : Channel)
    → client.fd ≡ target
    → find name s.channel_list ≡ some ch
    → Known s target
    → Live fd s
    → Refines (expel fd name message target client) s (leave target name)
unfolding expel
expel-HasRoster fd name message target client s ch key there known live = rw key (
    Ensures-bind _ _ s
      (message_all_channel-Quiet fd name s live.well (Live-Known live) (text "KICK") message)
      λ _ t same.
        let (d, there', _) = Same-channel name ch same there in
        Ensures-mono (removal-Ensures target name t d there' (Same-Known target same known))
          λ _ u e. rw e (λ j n. ground (
            arith,
            left-HasRoster target name t (Same-WellFormed same live.well) j n,
            Same-member j n same,
          )))

pub same_client :
    (fd : ℤ) (s : Server) (c d : Client)
    → find fd s.client_list ≡ some c
    → find fd s.client_list ≡ some d
    → c ≡ d
same_client fd s c d here there = ground (arith, here, there)

kick_found-HasRoster :
    (fd : ℤ) (name nickname : Text) (words : List Text) (ch : Channel) (s : Server)
    (operator : Client) (target : ℤ) (client : Client)
    → find fd s.client_list ≡ some operator
    → find name s.channel_list ≡ some ch
    → find target s.client_list ≡ some client
    → Live fd s
    → Refines
        (kick_found fd name nickname words ch (some (target, client)))
        s
        (kicked operator name (some ch) (some (target, client)))
unfolding error_nosuchnick_401 error_usernotinchannel_441
kick_found-HasRoster fd name nickname words ch s operator target client me there here live =
    Ensures-when _ _ _ s (λ ghost. rw ghost (refused-HasRoster fd _ false s (λ d. refl) live))
      λ real. at_client s fd _ (Live-Known live) λ reader there'.
        rw (same_client fd s operator reader me there') (
          Ensures-when _ _ _ s (λ self. rw (real, self) (Ensures-pure false s (λ j n. refl)))
            λ away.
              Ensures-when _ _ _ s
                (λ inside.
                  rw (real, away, inside)
                    (Ensures-bind _ _ s
                      (expel-HasRoster fd name _ target client s ch
                        (target_key s target client live.well here real) there (client, here) live)
                      λ _ t gone. Ensures-pure true t gone))
                λ outside.
                  rw (real, away, outside) (refused-HasRoster fd _ true s (λ d. refl) live))

-- A round of KICK with a nickname left takes the client with that nickname out of the channel, if
-- both exist and it is a member and has not the nickname of the sender, and changes nothing else
-- in who is in which channel.
pub kick_channel-Refines :
    (fd : ℤ) (name nickname : Text) (nicks words : List Text) (s : Server) (operator : Client)
    → find fd s.client_list ≡ some operator
    → Live fd s
    → Refines
        (kick_channel fd name (nickname ∷ nicks) words)
        s
        (kicked operator name (find name s.channel_list) (with_nickname nickname s.client_list))
unfolding kick_channel error_nosuchchannel_403 error_nosuchnick_401
kick_channel-Refines fd name nickname nicks words s operator me live =
    with_channel s name _ (λ free. rw free (refused-HasRoster fd _ true s (λ d. refl) live))
      λ ch there.
        with_named s nickname _
          (λ nobody. rw (there, nobody) (refused-HasRoster fd _ false s (λ d. refl) live))
          λ (target, client) found.
            rw (there, found)
              (kick_found-HasRoster fd name nickname words ch s operator target client me there
                (with_nickname-found nickname s.client_list target client live.well.distinct found)
                live)
