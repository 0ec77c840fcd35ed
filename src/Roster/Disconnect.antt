-- ===== src/Roster/Disconnect.antt =====
-- `disconnectClient` of IRC_PROTOCOL_SERVER/src/Server.cpp and the specification of leaving all
-- channels
use irc_protocol_server.Base.{
  ℤ, int_key, Text, text_key, ◌≡◌, refl, ◌∙◌, none, List, [], ◌∷◌, contains, find, find-erase_key,
  arith,
}
use irc_protocol_server.Channel.{remove_fd_list_client, remove_operator_fd, remove_invite_fd}
use irc_protocol_server.Server.{Server, for_each, disconnect_channel, disconnect_client}
use irc_protocol_server.Server.Ensures.{
  Ensures, Ensures-bind, Ensures-both, Ensures-mono, Ensures-pure, Ensures-modify,
}
use irc_protocol_server.Server.Links.{WellFormed, Known, Same-member, member, roll_at}
use irc_protocol_server.Server.Counts.{put_channel}
use irc_protocol_server.Server.Quiet.{modify_channel-Ensures, modify_channel-Quiet}
use irc_protocol_server.Safety.Part.{update-channel}
use irc_protocol_server.Safety.Leaving.{Leaving, listed_still, start-Leaving}
use irc_protocol_server.Safety.Connections.{
  index_client-Ensures, disconnect_channel-Leaving, remove_invite_fd-IsCalm,
}
use irc_protocol_server.Roster.{leave, leave_all, depart, HasRoster, Refines}
use irc_protocol_server.Roster.Quit.{removed-HasRoster, listed-depart}

disconnect_channel-HasRoster :
    (fd : ℤ) (name : Text) (rest : List Text) (s : Server)
    → Leaving fd (name ∷ rest) s
    → Refines (disconnect_channel fd name) s (leave fd name)
unfolding disconnect_channel
disconnect_channel-HasRoster fd name rest s leaving =
    let (ch, there) = listed_still s fd name rest leaving in
    let gone = update-channel name (remove_fd_list_client fd) s ch there in
    Ensures-bind {Q = λ _ t. t ≡ put_channel name (remove_fd_list_client fd) s} _ _ s
      (modify_channel-Ensures name _ s ch there refl)
      λ _ t e. rw e (
        Ensures-bind
          {Q = λ _ u.
            u
            ≡ put_channel name (remove_operator_fd fd)
                (put_channel name (remove_fd_list_client fd) s)}
          _ _ _ (modify_channel-Ensures name _ _ _ gone refl)
          λ _ u e'. rw e' (
            Ensures-mono
              (modify_channel-Quiet name (remove_invite_fd fd) _ _ (remove_invite_fd-IsCalm fd) (
                update-channel name (remove_operator_fd fd)
                  (put_channel name (remove_fd_list_client fd) s) _ gone))
              λ _ v same j n.
                Same-member j n same ∙ removed-HasRoster fd name (name ∷ rest) s leaving.well j n))

disconnect_channels-HasRoster :
    (fd : ℤ) (names : List Text) (s : Server)
    → Leaving fd names s
    → Refines (for_each names (disconnect_channel fd)) s (leave_all fd names)
unfolding for_each contains
disconnect_channels-HasRoster fd [] s leaving = Ensures-pure tt s (λ j n. ground arith)
disconnect_channels-HasRoster fd (name ∷ names) s leaving =
    Ensures-bind (disconnect_channel fd name) _ s
      (Ensures-both (disconnect_channel-Leaving fd name names s leaving)
        (disconnect_channel-HasRoster fd name names s leaving))
      λ _ t (leaving', left).
        Ensures-mono (disconnect_channels-HasRoster fd names t leaving')
          λ _ u rest j n. ground (arith, rest j n, left j n)

-- `disconnectClient` of a client that is on the server takes it off the server and out of all
-- channels, and changes nothing else in who is in which channel.
pub disconnect_client-Refines :
    (fd : ℤ) (s : Server)
    → WellFormed s
    → Known s fd
    → Ensures
        (disconnect_client fd)
        s
        (λ _ t. HasRoster t (depart fd (member s)) × (find fd t.client_list ≡ none))
unfolding disconnect_client member roll_at
disconnect_client-Refines fd s w (c, here) =
    Ensures-bind _ _ s (index_client-Ensures fd c s here) λ d t (e, same).
      rw (e, same)
        (Ensures-bind _ _ s
          (disconnect_channels-HasRoster fd c.channel_list s (start-Leaving fd s c here w))
          λ _ u left. Ensures-modify _ u (
            (λ j n. left j n ∙ listed-depart fd s c w here j n),
            ground (arith, find-erase_key fd fd u.client_list, int_key.beq_iff fd fd),
          ))
