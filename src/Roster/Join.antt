-- ===== src/Roster/Join.antt =====
-- IRC_PROTOCOL_SERVER/command/Join.cpp and the specification of entering
use irc_protocol_server.Base.{
  ℕ, ◌+◌, ◌≤◌, ℤ, int_key, nat_key, Text, text_key, ◌&&◌, ◌≡◌, ◌≢◌, refl, ◌∙◌, Bool, true, false,
  Option, none, some, List, count, length, find, find-insert, if◌then◌else◌, arith,
}
use irc_protocol_server.Channel.{
  Channel, diff_client_in_channel, append_fd_list_client, new_channel,
}
use irc_protocol_server.Client.{Client, append_channel_list}
use irc_protocol_server.Error.{
  error_nosuchchannel_403, error_badchannelkey_475, error_inviteonlychan_473,
  error_channelisfull_471, error_useronchannel_443,
}
use irc_protocol_server.Server.{Server, ◌>>=◌, modify_client, pure}
use irc_protocol_server.Server.Ensures.{
  Ensures, Ensures-bind, Ensures-mono, Ensures-when, Ensures-pure,
}
use irc_protocol_server.Server.Links.{member, roll_at, Same-member, channel_name_lem}
use irc_protocol_server.Server.Counts.{put_client, hit, member-append}
use irc_protocol_server.Server.Quiet.{IsQuiet, modify_client-Quiet, with_channel, at_client}
use irc_protocol_server.Command.Join.{
  Admission, admitted, already_on_channel, no_keys, bad_key, bad_iterator, invite_only, full,
  admission, act_on, is_channel_name, join_found, join_channel,
}
use irc_protocol_server.Safety.Live.{Live, Live-Known}
use irc_protocol_server.Safety.Part.{update-channel}
use irc_protocol_server.Safety.Join.{
  entered, entered-Live, enter-Live, not_member-zero, after_entry-Quiet, admission-new,
  admission-defined,
}
use irc_protocol_server.Safety.Joins.{
  opened, opened-channel, opened-new, found_channel-Ensures, founded-Live, after_founding-Quiet,
}
use irc_protocol_server.Roster.{Roster, enter_channel, HasRoster, Refines}

-- A verdict that lets in
abbrev pub admits : Admission → Bool
admits admitted = true
admits already_on_channel = false
admits no_keys = false
admits bad_key = false
admits bad_iterator = false
admits invite_only = false
admits full = false

-- A channel that does not exist is founded, and one that exists decides.
abbrev pub lets_in : ℤ → ℕ → List Text → ℕ → Option Channel → Bool
lets_in fd size keys at none = true
lets_in fd size keys at (some channel) = admits (admission fd size keys at channel)

entered-HasRoster :
    (fd : ℤ) (name : Text) (s : Server) (ch : Channel)
    → find name s.channel_list ≡ some ch
    → member s fd name ≡ 0
    → HasRoster (entered fd name s) (enter_channel fd name (member s))
unfolding member roll_at
entered-HasRoster fd name s ch there new j n =
    member-append (put_client fd (append_channel_list name) s) fd name ch there j n ∙ one_more
  where
    one_more : member s j n + hit fd name j n ≡ enter_channel fd name (member s) j n
    one_more = ground (arith, new, int_key.beq_iff fd j, text_key.beq_iff name n)

-- A new channel has nobody in it.
opened-HasRoster :
    (fd : ℤ) (name : Text) (s : Server)
    → find name s.channel_list ≡ none
    → HasRoster (opened fd name s) (member s)
unfolding member roll_at count new_channel
opened-HasRoster fd name s free j n = ground (
  arith,
  find-insert n name (new_channel name fd) s.channel_list free,
  text_key.beq_iff name n,
  free,
)

founded-HasRoster :
    (fd : ℤ) (size : ℕ) (keys : List Text) (at : ℕ) (name : Text) (s : Server)
    → find name s.channel_list ≡ none
    → Live fd s
    → Refines (join_found fd size keys at name none) s (enter_channel fd name)
founded-HasRoster fd size keys at name s free live =
    Ensures-bind _ _ s (found_channel-Ensures fd name s free live) λ _ t e. rw e (
      Ensures-mono
        (after_founding-Quiet fd name (entered fd name (opened fd name s))
          (founded-Live fd name s free live))
        λ _ u same j n.
          let was_out = opened-HasRoster fd name s free j n in
          ground (
            arith,
            Same-member j n same,
            entered-HasRoster fd name (opened fd name s) _ (opened-channel fd name s free)
                (opened-new fd name s free) j n,
            was_out,
          ))

admitted-HasRoster :
    (fd : ℤ) (name : Text) (s : Server) (ch : Channel)
    → find name s.channel_list ≡ some ch
    → diff_client_in_channel fd ch ≡ false
    → Live fd s
    → Refines (act_on admitted fd name ch) s (enter_channel fd name)
unfolding act_on
admitted-HasRoster fd name s ch there out live = rw (channel_name_lem s name ch live.well there) (
    Ensures-bind _ _ s (enter-Live fd name s ch there live) λ _ t e. rw e (
      let new = not_member-zero fd name s ch there out in
      Ensures-mono
        (after_entry-Quiet fd name (entered fd name s) _
          (update-channel name (append_fd_list_client fd) s ch there)
          (entered-Live fd name s ch there new live))
        λ _ u same j n. Same-member j n same ∙ entered-HasRoster fd name s ch there new j n))

-- A refusal changes nobody's channels.
pub refused-HasRoster :
    (fd : ℤ) (f : Client → Client) (go_on : Bool) (s : Server)
    → IsQuiet f
    → Live fd s
    → Ensures (modify_client fd f >>= λ _. pure go_on) s (λ _ t. HasRoster t (member s))
refused-HasRoster fd f go_on s quiet live =
    Ensures-bind _ _ s (modify_client-Quiet fd f s quiet (Live-Known live))
      λ _ t same. Ensures-pure go_on t (λ j n. Same-member j n same)

abbrev pub decided : Bool → ℤ → Text → Roster → Roster
decided entry fd name r = if entry then enter_channel fd name r else r

act_on-HasRoster :
    (verdict : Admission) (fd : ℤ) (name : Text) (s : Server) (ch : Channel)
    → verdict ≢ bad_iterator
    → (verdict ≡ admitted → diff_client_in_channel fd ch ≡ false)
    → find name s.channel_list ≡ some ch
    → Live fd s
    → Refines (act_on verdict fd name ch) s (decided (admits verdict) fd name)
unfolding act_on error_badchannelkey_475 error_inviteonlychan_473 error_channelisfull_471
    error_useronchannel_443
act_on-HasRoster admitted fd name s ch defined new there live =
    admitted-HasRoster fd name s ch there (new refl) live
act_on-HasRoster already_on_channel fd name s ch defined new there live =
    at_client s fd _ (Live-Known live) λ c here. refused-HasRoster fd _ true s (λ d. refl) live
act_on-HasRoster no_keys fd name s ch defined new there live =
    refused-HasRoster fd _ false s (λ d. refl) live
act_on-HasRoster bad_key fd name s ch defined new there live =
    refused-HasRoster fd _ true s (λ d. refl) live
act_on-HasRoster bad_iterator fd name s ch defined new there live = absurd (defined refl)
act_on-HasRoster invite_only fd name s ch defined new there live =
    refused-HasRoster fd _ true s (λ d. refl) live
act_on-HasRoster full fd name s ch defined new there live =
    refused-HasRoster fd _ true s (λ d. refl) live

-- A round of JOIN with the position in the keys in range or at their end: of a client that is on the
-- server and has registered, it puts the client into the channel if its name is one of a channel, and
-- the channel does not exist or lets it in; else it changes nothing in who is in which channel.
pub join_channel-Refines :
    (fd : ℤ) (size : ℕ) (keys : List Text) (at : ℕ) (name : Text) (s : Server)
    → at ≤ length keys
    → Live fd s
    → Refines (join_channel fd size keys at name) s (
        decided
          (is_channel_name name && lets_in fd size keys at (find name s.channel_list))
          fd
          name)
unfolding join_channel error_nosuchchannel_403
join_channel-Refines fd size keys at name s inside live =
    Ensures-when _ _ _ s
      (λ yes. rw yes (
        with_channel s name _ (λ free. rw free (founded-HasRoster fd size keys at name s free live))
          λ ch there. rw there (
            act_on-HasRoster _ fd name s ch (admission-defined fd size keys at ch inside)
              (admission-new fd size keys at ch) there live)))
      λ no. rw no (refused-HasRoster fd _ true s (λ d. refl) live)
