-- ===== src/Roster/Part.antt =====
-- IRC_PROTOCOL_SERVER/command/Part.cpp and the specification of leaving
use irc_protocol_server.Base.{
  ◌-◌, ℤ, int_key, nat_key, Text, text, text_key, ◌≡◌, refl, ◌∙◌, ap, false, some, List, [], ◌∷◌,
  contains, count, find, find-erase_key, arith, erase_key, count-contains,
}
use irc_protocol_server.Client.{Client, find_channel, delete_channel}
use irc_protocol_server.Channel.{Channel, remove_fd_list_client, remove_operator_fd}
use irc_protocol_server.Error.{error_nosuchchannel_403, error_notonchannel_442}
use irc_protocol_server.Server.{Server, ◌>>=◌, for_each, modify_client, remove_channel}
use irc_protocol_server.Server.Ensures.{
  Ensures, Ensures-bind, Ensures-both, Ensures-mono, Ensures-when, Ensures-pure, Ensures-modify,
}
use irc_protocol_server.Server.Links.{
  WellFormed, Same-member, member, joined, count_in, shape_at-some, roll_at, channel_name_lem,
}
use irc_protocol_server.Server.Counts.{put_client, put_channel, hit, member-remove}
use irc_protocol_server.Server.Quiet.{
  IsQuiet, put_channel-Same, modify_client-Ensures, at_client, at_channel, with_channel,
  modify_client-Quiet,
}
use irc_protocol_server.Util.{split}
use irc_protocol_server.Util.Quiet.{message_all_channel-Quiet}
use irc_protocol_server.Command.Part.{leave_channel, drop_if_empty, part_channel, part}
use irc_protocol_server.Safety.Live.{Live, Live-Known, Same-Live, Same-channel}
use irc_protocol_server.Safety.Part.{
  listed_channel, left, left-Live, left-channel, leave_channel-Ensures, remove_operator_fd-IsCalm,
  part_channel-Live,
}
use irc_protocol_server.Roster.{Roster, leave, leave_all, HasRoster, Refines}

pub removed_once :
    (s : Server) (fd : ℤ) (name : Text) (j : ℤ) (n : Text)
    → WellFormed s
    → member s j n - hit fd name j n ≡ leave fd name (member s) j n
removed_once s fd name j n w = ground (arith, w.linked j n, w.once j n)

-- One removal from the member list
pub left-HasRoster :
    (fd : ℤ) (name : Text) (s : Server)
    → WellFormed s
    → HasRoster (left fd fd name s) (leave fd name (member s))
unfolding member roll_at
left-HasRoster fd name s w j n =
    Same-member
      {s = put_channel name (remove_fd_list_client fd) (put_client fd (delete_channel name) s)} j n
      (put_channel-Same name (remove_operator_fd fd) _ (remove_operator_fd-IsCalm fd))
    ∙ member-remove (put_client fd (delete_channel name) s) fd name j n
    ∙ removed_once s fd name j n w

dropped :
    (name : Text) (s : Server) (ch : Channel) (j : ℤ) (n : Text)
    → find name s.channel_list ≡ some ch
    → ch.client_fd_list ≡ []
    → member (record s { channel_list = erase_key name s.channel_list }) j n ≡ member s j n
unfolding member roll_at count
dropped name s ch j n there empty =
    ground (arith, find-erase_key n name s.channel_list, text_key.beq_iff name n, there)

-- A channel with no member is deleted, which the roster does not show.
pub drop_if_empty-HasRoster :
    (name : Text) (s : Server) (ch : Channel)
    → ch.channel_name ≡ name
    → find name s.channel_list ≡ some ch
    → Ensures (drop_if_empty name) s (λ _ t. HasRoster t (member s))
unfolding drop_if_empty remove_channel
drop_if_empty-HasRoster name s ch is_name there = at_channel s name _ ch there (
    Ensures-when _ _ _ s
      (λ empty. Ensures-modify _ s (rw is_name (λ j n. dropped name s ch j n there (ground arith))))
      (λ more. Ensures-pure tt s (λ j n. refl)))

-- The end of a round of PART
leave_and_drop-HasRoster :
    (fd : ℤ) (name : Text) (t : Server) (ch : Channel)
    → find name t.channel_list ≡ some ch
    → Live fd t
    → Refines
        (leave_channel fd name >>= λ _.
          (modify_client fd (delete_channel name) >>= λ _. drop_if_empty name))
        t
        (leave fd name)
leave_and_drop-HasRoster fd name t ch there live =
    Ensures-bind (leave_channel fd name) _ t (leave_channel-Ensures fd name t ch there) λ _ u e.
      rw e (
        Ensures-bind {Q = λ _ v. v ≡ left fd fd name t} (modify_client fd _) _ _
          (modify_client-Ensures fd _ _ (Live-Known live) refl)
          λ _ v e'. rw e' (
            Ensures-mono
              (drop_if_empty-HasRoster name (left fd fd name t) _
                (channel_name_lem (left fd fd name t) name _ (left-Live fd fd name t live).well
                  (left-channel fd name t ch there))
                (left-channel fd name t ch there))
              λ _ x same j n. same j n ∙ left-HasRoster fd name t live.well j n))

-- A client is not in a channel that it does not list.
unlisted-leave :
    (fd : ℤ) (name : Text) (s : Server) (c : Client)
    → WellFormed s
    → find fd s.client_list ≡ some c
    → find_channel name c ≡ false
    → HasRoster s (leave fd name (member s))
unfolding find_channel joined
unlisted-leave fd name s c w here out j n = ground (
  arith,
  w.linked fd name,
  count-contains name c.channel_list out,
  ap (count_in name) (shape_at-some s fd c here),
  int_key.beq_iff fd j,
  text_key.beq_iff name n,
)

-- A reply changes nobody's channels.
replied :
    (fd : ℤ) (f : Client → Client) (s : Server) (g : Roster → Roster)
    → Live fd s
    → IsQuiet f
    → HasRoster s (g (member s))
    → Refines (modify_client fd f) s g
replied fd f s g live quiet stays =
    Ensures-mono (modify_client-Quiet fd f s quiet (Live-Known live))
      λ _ t same j n. Same-member j n same ∙ stays j n

part_channel-HasRoster :
    (fd : ℤ) (message name : Text) (s : Server)
    → Live fd s
    → Refines (part_channel fd message name) s (leave fd name)
unfolding part_channel error_nosuchchannel_403 error_notonchannel_442
part_channel-HasRoster fd message name s live = at_client s fd _ (Live-Known live) λ c here.
    Ensures-when _ _ _ s
      (λ listed.
        let (ch, there) = listed_channel s fd name c live.well here listed in
        Ensures-bind _ _ s
          (message_all_channel-Quiet fd name s live.well (Live-Known live) (text "PART") message)
          λ _ t same.
            let (d, there', _) = Same-channel name ch same there in
            Ensures-mono (leave_and_drop-HasRoster fd name t d there' (Same-Live same live))
              λ _ u left j n. ground (arith, left j n, Same-member j n same))
      (λ out.
        let stays = unlisted-leave fd name s c live.well here out in
        with_channel s name _ (λ _. replied fd _ s (leave fd name) live (λ d. refl) stays)
          (λ d _. replied fd _ s (leave fd name) live (λ e. refl) stays))

part_channels-HasRoster :
    (fd : ℤ) (message : Text) (names : List Text) (s : Server)
    → Live fd s
    → Refines (for_each names (part_channel fd message)) s (leave_all fd names)
unfolding for_each contains
part_channels-HasRoster fd message [] s live = Ensures-pure tt s (λ j n. ground arith)
part_channels-HasRoster fd message (name ∷ names) s live =
    Ensures-bind (part_channel fd message name) _ s
      (Ensures-both (part_channel-Live fd message name s live)
        (part_channel-HasRoster fd message name s live))
      λ _ t (live', left).
        Ensures-mono (part_channels-HasRoster fd message names t live')
          λ _ u rest j n. ground (arith, rest j n, left j n)

-- PART of a client that is on the server and has registered takes it out of the channels that it
-- names, and changes nothing else in who is in which channel.
pub part-Refines :
    (fd : ℤ) (verb names : Text) (words : List Text) (s : Server)
    → Live fd s
    → Refines (part fd (verb ∷ names ∷ words)) s (leave_all fd (split names b','))
unfolding part
part-Refines fd verb names words s live = part_channels-HasRoster fd _ (split names b',') s live
