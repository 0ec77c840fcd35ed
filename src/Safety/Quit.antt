-- ===== src/Safety/Quit.antt =====
-- IRC_PROTOCOL_SERVER/command/Quit.cpp: the loop over the channels of the client, and its removal
use irc_protocol_server.Safety.Leaving.{
  Leaving, still_in, still_left, listed_still, Same-still_in, start-Leaving, erase-Leaving,
  known_members,
}
use irc_protocol_server.Server.Entries.{remove-WellFormed}
use irc_protocol_server.Server.Counts.{put_client, put_channel}
use irc_protocol_server.Safety.Live.{Same-channel}
use irc_protocol_server.Base.{
  ℤ, int_key, nat_key, Text, text, text_key, ◌≡◌, refl, some, List, [], ◌∷◌, find, arith,
  erase_key-update, push_back,
}
use irc_protocol_server.Client.{reset_client}
use irc_protocol_server.Channel.{Channel, remove_fd_list_client, remove_operator_fd}
use irc_protocol_server.Server.{Server, ◌>>=◌, for_each, dismiss, remove_channel}
use irc_protocol_server.Server.Ensures.{
  Ensures, Ensures-bind, Ensures-when, Ensures-pure, Ensures-modify,
}
use irc_protocol_server.Server.Links.{WellFormed, Same-Known, Same-WellFormed, channel_name_lem}
use irc_protocol_server.Server.Quiet.{with_channel, with_client, at_channel, modify_client-Ensures}
use irc_protocol_server.Util.{message_all_channel}
use irc_protocol_server.Util.Quiet.{message_members-Quiet, members-AllKnown}
use irc_protocol_server.Command.Part.{drop_if_empty}
use irc_protocol_server.Command.Quit.{quit_channel, quit}
use irc_protocol_server.Safety.Part.{leave_channel-Ensures, update-channel}

drop_if_empty-Leaving :
    (fd : ℤ) (name : Text) (rest : List Text) (s : Server) (ch : Channel)
    → find name s.channel_list ≡ some ch
    → Leaving fd rest s
    → Ensures (drop_if_empty name) s (λ _. Leaving fd rest)
unfolding drop_if_empty remove_channel
drop_if_empty-Leaving fd name rest s ch there leaving = at_channel s name _ ch there (
    Ensures-when _ _ _ s
      (λ empty. Ensures-modify _ s (
        rw (channel_name_lem (still_in fd rest s) name ch leaving.well there) (record {
          well = remove-WellFormed (still_in fd rest s) leaving.well name ch there (ground arith);
          known = leaving.known;
        })))
      (λ more. Ensures-pure tt s leaving))

pub quit_channel-Leaving :
    (fd : ℤ) (message name : Text) (rest : List Text) (s : Server)
    → Leaving fd (name ∷ rest) s
    → Ensures (quit_channel fd message name) s (λ _. Leaving fd rest)
unfolding quit_channel
quit_channel-Leaving fd message name rest s leaving =
    let (listed, there) = listed_still s fd name rest leaving in
    with_channel s name _ (λ absent. ground (arith, there))
      λ ch found. rw (channel_name_lem (still_in fd (name ∷ rest) s) name ch leaving.well found) (
        Ensures-bind _ _ s (leave_channel-Ensures fd name s ch found) λ _ t e. rw e (
          told _ _
            (update-channel name (remove_operator_fd fd)
              (put_channel name (remove_fd_list_client fd) s) _
              (update-channel name (remove_fd_list_client fd) s ch found))
            (record { well = still_left s fd name rest leaving.well; known = leaving.known })))
  where
    told :
        (t : Server) (d : Channel)
        → find name t.channel_list ≡ some d
        → Leaving fd rest t
        → Ensures
            (message_all_channel fd name (text "QUIT") message >>= λ _. drop_if_empty name)
            t
            (λ _. Leaving fd rest)
    told t d found left =
        Ensures-bind _ _ t
          (message_members-Quiet fd name t left.known
            (λ c there.
              known_members t fd rest c.client_fd_list
                (members-AllKnown (still_in fd rest t) name c left.well there))
            (text "QUIT") message)
          λ _ u same.
            let (e, there, _) = Same-channel name d same found in
            drop_if_empty-Leaving fd name rest u e there (record {
              well = Same-WellFormed (Same-still_in fd rest t u same) left.well;
              known = Same-Known fd same left.known;
            })

quit_channels-Leaving :
    (fd : ℤ) (message : Text) (names : List Text) (s : Server)
    → Leaving fd names s
    → Ensures (for_each names (quit_channel fd message)) s (λ _. Leaving fd [])
unfolding for_each
quit_channels-Leaving fd message [] s leaving = Ensures-pure tt s leaving
quit_channels-Leaving fd message (name ∷ names) s leaving =
    Ensures-bind (quit_channel fd message name) _ s
      (quit_channel-Leaving fd message name names s leaving)
      λ _ t leaving'. quit_channels-Leaving fd message names t leaving'

dismiss-Leaving : (fd : ℤ) (s : Server) → Leaving fd [] s → Ensures (dismiss fd) s (λ _. WellFormed)
unfolding dismiss
dismiss-Leaving fd s leaving =
    Ensures-bind {Q = λ _ t. t ≡ put_client fd reset_client s} _ _ s
      (modify_client-Ensures fd _ s leaving.known refl)
      λ _ t e. rw e (
        Ensures-modify _ (put_client fd reset_client s) (
          rw (erase_key-update fd reset_client s.client_list)
            (erase-Leaving fd s (push_back s.closed fd) leaving)))

-- QUIT returns from well-formed tables, its loop included, and leaves them well-formed.
pub quit-WellFormed :
    (fd : ℤ) (cmd_vector : List Text) (s : Server)
    → WellFormed s
    → Ensures (quit fd cmd_vector) s (λ _. WellFormed)
unfolding quit
quit-WellFormed fd cmd_vector s w =
    with_client s fd _ (λ _. Ensures-pure tt s w)
      λ c here.
        Ensures-bind _ _ s
          (quit_channels-Leaving fd _ c.channel_list s (start-Leaving fd s c here w))
          λ _ t leaving. dismiss-Leaving fd t leaving
