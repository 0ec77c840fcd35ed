-- ===== src/Safety/Part.antt =====
-- IRC_PROTOCOL_SERVER/command/Part.cpp
use irc_protocol_server.Server.Entries.{remove-WellFormed}
use irc_protocol_server.Server.Counts.{put_client, put_channel}
use irc_protocol_server.Base.{
  ℤ, int_key, nat_key, Text, text_key, ◌≡◌, refl, sym, ◌∙◌, ap, true, some, List, [], ◌∷◌,
  contains-count, find, update, arith, find-update, text,
}
use irc_protocol_server.Client.{Client, delete_channel, find_channel}
use irc_protocol_server.Channel.{Channel, remove_fd_list_client, remove_operator_fd}
use irc_protocol_server.Error.{
  error_nosuchchannel_403, error_notonchannel_442, error_needmoreparams_461,
}
use irc_protocol_server.Server.{Server, ◌>>=◌, modify_client, modify_channel, remove_channel}
use irc_protocol_server.Server.Ensures.{
  Ensures, Ensures-bind, Ensures-when, Ensures-pure, Ensures-for_each, Ensures-modify,
}
use irc_protocol_server.Server.Links.{
  WellFormed, joined, count_in, shape_at-some, channel_of_joined, channel_name_lem,
}
use irc_protocol_server.Server.Quiet.{
  modify_client-Ensures, modify_channel-Ensures, put_channel-Same, with_channel, at_client,
  at_channel, IsCalm,
}
use irc_protocol_server.Server.Changes.{leave-WellFormed}
use irc_protocol_server.Util.Quiet.{message_all_channel-Quiet}
use irc_protocol_server.Command.Part.{leave_channel, drop_if_empty, part_channel, part}
use irc_protocol_server.Safety.Live.{
  Live, Live-Known, Live-then, Live-reply, Same-Live, Same-channel, update-inside,
}

-- A channel that the client lists is in the table.
pub listed_channel :
    (s : Server) (fd : ℤ) (name : Text) (c : Client)
    → WellFormed s
    → find fd s.client_list ≡ some c
    → find_channel name c ≡ true
    → (ch : Channel) × (find name s.channel_list ≡ some ch)
unfolding joined find_channel
listed_channel s fd name c w here listed = channel_of_joined s fd name w λ out. absurd (
    omega (
      arith,
      contains-count name c.channel_list listed,
      sym (ap (count_in name) (shape_at-some s fd c here)) ∙ out,
    ))

pub remove_operator_fd-IsCalm : (fd : ℤ) → IsCalm (remove_operator_fd fd)
unfolding remove_operator_fd
remove_operator_fd-IsCalm fd c = refl

-- The state that leaving a channel ends in
abbrev pub left : ℤ → ℤ → Text → Server → Server
left fd target name s =
    put_channel name (remove_operator_fd fd)
      (put_channel name (remove_fd_list_client fd) (put_client target (delete_channel name) s))

pub left-Live : (fd me : ℤ) (name : Text) (s : Server) → Live me s → Live me (left fd fd name s)
unfolding delete_channel
left-Live fd me name s live =
    let (c, here, inside) = update-inside me fd (delete_channel name) s live (λ c. refl) in
    Same-Live (put_channel-Same name (remove_operator_fd fd) _ (remove_operator_fd-IsCalm fd))
      (record {
        well = leave-WellFormed s live.well fd name;
        client = c;
        here = here;
        inside = inside;
      })

-- After a removal the channel is still there, under its name.
pub update-channel :
    (name : Text) (f : Channel → Channel) (s : Server) (ch : Channel)
    → find name s.channel_list ≡ some ch
    → find name (update name f s.channel_list) ≡ some (f ch)
update-channel name f s ch e =
    ground (arith, find-update name name f s.channel_list, text_key.beq_iff name name)

pub leave_channel-Ensures :
    (fd : ℤ) (name : Text) (s : Server) (ch : Channel)
    → find name s.channel_list ≡ some ch
    → Ensures (leave_channel fd name) s (λ _ t.
      t ≡ put_channel name (remove_operator_fd fd) (put_channel name (remove_fd_list_client fd) s))
unfolding leave_channel
leave_channel-Ensures fd name s ch there =
    Ensures-bind (modify_channel name (remove_fd_list_client fd)) _ s
      (modify_channel-Ensures {Q = λ _ t. t ≡ put_channel name (remove_fd_list_client fd) s} name _
        s ch there refl)
      λ _ t e. rw e (
        modify_channel-Ensures name _ _ (remove_fd_list_client fd ch)
          (update-channel name (remove_fd_list_client fd) s ch there) refl)

pub left-channel :
    (fd : ℤ) (name : Text) (s : Server) (ch : Channel)
    → find name s.channel_list ≡ some ch
    → find name (left fd fd name s).channel_list
      ≡ some (remove_operator_fd fd (remove_fd_list_client fd ch))
left-channel fd name s ch there =
    update-channel name (remove_operator_fd fd) (put_channel name (remove_fd_list_client fd) s)
      (remove_fd_list_client fd ch) (update-channel name (remove_fd_list_client fd) s ch there)

drop_if_empty-Live :
    (fd : ℤ) (name : Text) (s : Server) (ch : Channel)
    → find name s.channel_list ≡ some ch
    → Live fd s
    → Ensures (drop_if_empty name) s (λ _. Live fd)
unfolding drop_if_empty remove_channel
drop_if_empty-Live fd name s ch there live = at_channel s name _ ch there (
    Ensures-when _ _ _ s
      (λ empty. Ensures-modify _ s (
        rw (channel_name_lem s name ch live.well there) (record {
          well = remove-WellFormed s live.well name ch there (ground arith);
          client = live.client;
          here = live.here;
          inside = live.inside;
        })))
      (λ more. Ensures-pure tt s live))

leave_and_drop-Live :
    (fd : ℤ) (name : Text) (t : Server) (ch : Channel)
    → find name t.channel_list ≡ some ch
    → Live fd t
    → Ensures
        (leave_channel fd name >>= λ _.
          (modify_client fd (delete_channel name) >>= λ _. drop_if_empty name))
        t
        (λ _. Live fd)
leave_and_drop-Live fd name t ch there live =
    Ensures-bind (leave_channel fd name) _ t (leave_channel-Ensures fd name t ch there) λ _ u e.
      rw e (
        Ensures-bind {Q = λ _ v. v ≡ left fd fd name t} (modify_client fd _) _ _
          (modify_client-Ensures fd _ _ (Live-Known live) refl)
          λ _ v e'. rw e' (
            drop_if_empty-Live fd name _ _ (left-channel fd name t ch there)
              (left-Live fd fd name t live)))

pub part_channel-Live :
    (fd : ℤ) (message name : Text) (s : Server)
    → Live fd s
    → Ensures (part_channel fd message name) s (λ _. Live fd)
unfolding part_channel error_nosuchchannel_403 error_notonchannel_442
part_channel-Live fd message name s live = at_client s fd _ (Live-Known live) λ c here.
    Ensures-when _ _ _ s
      (λ listed.
        let (ch, there) = listed_channel s fd name c live.well here listed in
        Live-then _ _ s live
          (message_all_channel-Quiet fd name s live.well (Live-Known live) (text "PART") message)
          λ _ t same live'.
            let (d, there', _) = Same-channel name ch same there in
            leave_and_drop-Live fd name t d there' live')
      (λ out.
        with_channel s name _ (λ _. Live-reply fd fd _ s live (λ d. refl) (Live-Known live))
          (λ d _. Live-reply fd fd _ s live (λ e. refl) (Live-Known live)))

-- PART of a client that is on the server and has registered returns from well-formed
-- tables, and keeps them well-formed and that client in them.
pub part-Live :
    (fd : ℤ) (cmd_vector : List Text) (s : Server)
    → Live fd s
    → Ensures (part fd cmd_vector) s (λ _. Live fd)
unfolding part error_needmoreparams_461
part-Live fd (verb ∷ names ∷ words) s live =
    Ensures-for_each (λ name t. part_channel-Live fd _ name t) _ live
part-Live fd (verb ∷ []) s live = Live-reply fd fd _ s live (λ d. refl) (Live-Known live)
part-Live fd [] s live = Live-reply fd fd _ s live (λ d. refl) (Live-Known live)
