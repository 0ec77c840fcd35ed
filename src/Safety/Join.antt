-- ===== src/Safety/Join.antt =====
-- The channel that exists, in IRC_PROTOCOL_SERVER/command/Join.cpp
use irc_protocol_server.Server.Counts.{put_client, put_channel}
use irc_protocol_server.Util.{message_all_channel, topic_message, name_list_msg}
use irc_protocol_server.Base.{
  ℕ, ℤ, int_key, nat_key, Text, text, text_key, ◌≡◌, ◌≢◌, refl, Bool, true, false, none, some, List,
  [], ◌∷◌, length, get_elem?, find, arith, zero, suc, ◌<◌, ◌≤◌, Option-cases, inl, inr, ◌∙◌, ap,
  count-contains,
}
use irc_protocol_server.Client.{Client, append_channel_list}
use irc_protocol_server.Channel.{Channel, append_fd_list_client, diff_client_in_channel}
use irc_protocol_server.Error.{
  error_useronchannel_443, error_badchannelkey_475, error_inviteonlychan_473,
  error_channelisfull_471,
}
use irc_protocol_server.Server.{Server, pure, ◌>>=◌, modify_client}
use irc_protocol_server.Server.Ensures.{Ensures, Ensures-bind, Ensures-pure}
use irc_protocol_server.Server.Links.{
  channel_name_lem, member, count_of, roll_at-some, Same-Known, Same-WellFormed, Same-trans,
}
use irc_protocol_server.Server.Quiet.{
  modify_client-Ensures, modify_channel-Ensures, at_client, IsQuiet, Quiet, Quiet-bind, Quiet-pure,
}
use irc_protocol_server.Server.Changes.{enter-WellFormed}
use irc_protocol_server.Util.Quiet.{message_all_channel-Quiet}
use irc_protocol_server.Util.Replies.{topic_message-Quiet, name_list_msg-Quiet}
use irc_protocol_server.Command.Join.{
  Admission, admitted, already_on_channel, no_keys, bad_key, bad_iterator, invite_only, full,
  admission, enter, act_on,
}
use irc_protocol_server.Safety.Live.{
  Live, Live-Known, Live-reply, Same-channel, update-inside, Live-Quiet,
}
use irc_protocol_server.Safety.Part.{update-channel}

-- The state that entering a channel ends in
abbrev pub entered : ℤ → Text → Server → Server
entered fd name s =
    put_channel name (append_fd_list_client fd) (put_client fd (append_channel_list name) s)

pub entered-Live :
    (fd : ℤ) (name : Text) (s : Server) (ch : Channel)
    → find name s.channel_list ≡ some ch
    → member s fd name ≡ 0
    → Live fd s
    → Live fd (entered fd name s)
unfolding append_channel_list
entered-Live fd name s ch there new live =
    let (c, here, inside) = update-inside fd fd (append_channel_list name) s live (λ c. refl) in
    record {
      well = enter-WellFormed s live.well fd name live.client ch live.here live.inside there new;
      client = c;
      here = here;
      inside = inside;
    }

-- Who is not among the members counts for none.
pub not_member-zero :
    (fd : ℤ) (name : Text) (s : Server) (ch : Channel)
    → find name s.channel_list ≡ some ch
    → diff_client_in_channel fd ch ≡ false
    → member s fd name ≡ 0
unfolding member diff_client_in_channel
not_member-zero fd name s ch there out =
    ap (count_of fd) (roll_at-some s name ch there) ∙ count-contains fd ch.client_fd_list out

-- The replies to a client that has just entered
pub after_entry-Quiet :
    (fd : ℤ) (name : Text) (t : Server) (d : Channel)
    → find name t.channel_list ≡ some d
    → Live fd t
    → Quiet
        (message_all_channel fd name (text "JOIN") [] >>= λ _.
          (topic_message fd name >>= λ _. (name_list_msg fd name >>= λ _. pure true)))
        t
after_entry-Quiet fd name t d found live =
    let known = Live-Known live in
    Quiet-bind _ _ t (message_all_channel-Quiet fd name t live.well known (text "JOIN") [])
      λ _ u same.
        let (e, there, _) = Same-channel name d same found in
        let known' = Same-Known fd same known in
        Quiet-bind _ _ u (topic_message-Quiet fd name u e there known') λ _ v same'.
          Quiet-bind _ _ v
            (name_list_msg-Quiet fd name v (Same-WellFormed (Same-trans same same') live.well)
              (Same-Known fd same' known'))
            λ _ w _. Quiet-pure true w

pub enter-Live :
    (fd : ℤ) (name : Text) (s : Server) (ch : Channel)
    → find name s.channel_list ≡ some ch
    → Live fd s
    → Ensures (enter fd name name) s (λ _ t. t ≡ entered fd name s)
unfolding enter
enter-Live fd name s ch there live =
    Ensures-bind {Q = λ _ t. t ≡ put_client fd (append_channel_list name) s} (modify_client fd _) _
      s (modify_client-Ensures fd _ s (Live-Known live) refl)
      λ _ t e. rw e (modify_channel-Ensures name _ _ ch there refl)

admitted-Live :
    (fd : ℤ) (name : Text) (s : Server) (ch : Channel)
    → find name s.channel_list ≡ some ch
    → diff_client_in_channel fd ch ≡ false
    → Live fd s
    → Ensures (act_on admitted fd name ch) s (λ _. Live fd)
unfolding act_on
admitted-Live fd name s ch there out live = rw (channel_name_lem s name ch live.well there) (
    Ensures-bind _ _ s (enter-Live fd name s ch there live) λ _ t e. rw e (
      let live' = entered-Live fd name s ch there (not_member-zero fd name s ch there out) live in
      Live-Quiet live' (
        after_entry-Quiet fd name (entered fd name s) _
          (update-channel name (append_fd_list_client fd) s ch there) live')))

-- A refusal writes one reply.
pub refused-Live :
    (fd : ℤ) (f : Client → Client) (go_on : Bool) (s : Server)
    → IsQuiet f
    → Live fd s
    → Ensures (modify_client fd f >>= λ _. pure go_on) s (λ _. Live fd)
refused-Live fd f go_on s quiet live =
    Ensures-bind _ _ s (Live-reply fd fd f s live quiet (Live-Known live))
      λ _ t live'. Ensures-pure go_on t live'

-- Every verdict but the undefined one
pub act_on-Live :
    (verdict : Admission) (fd : ℤ) (name : Text) (s : Server) (ch : Channel)
    → verdict ≢ bad_iterator
    → (verdict ≡ admitted → diff_client_in_channel fd ch ≡ false)
    → find name s.channel_list ≡ some ch
    → Live fd s
    → Ensures (act_on verdict fd name ch) s (λ _. Live fd)
unfolding act_on error_badchannelkey_475 error_inviteonlychan_473 error_channelisfull_471
    error_useronchannel_443
act_on-Live admitted fd name s ch defined new there live =
    admitted-Live fd name s ch there (new refl) live
act_on-Live already_on_channel fd name s ch defined new there live =
    at_client s fd _ (Live-Known live) λ c here. refused-Live fd _ true s (λ d. refl) live
act_on-Live no_keys fd name s ch defined new there live = refused-Live fd _ false s (λ d. refl) live
act_on-Live bad_key fd name s ch defined new there live = refused-Live fd _ true s (λ d. refl) live
act_on-Live bad_iterator fd name s ch defined new there live = absurd (defined refl)
act_on-Live invite_only fd name s ch defined new there live =
    refused-Live fd _ true s (λ d. refl) live
act_on-Live full fd name s ch defined new there live = refused-Live fd _ true s (λ d. refl) live

get_elem?-inside : (keys : List Text) (at : ℕ) → at < length keys → get_elem? keys at ≢ none
get_elem?-inside [] at inside = ground arith
get_elem?-inside (key ∷ keys) zero inside = ground arith
get_elem?-inside (key ∷ keys) (suc at) inside = get_elem?-inside keys at (omega (arith, inside))

pub admission-new :
    (fd : ℤ) (size : ℕ) (keys : List Text) (at : ℕ) (ch : Channel)
    → admission fd size keys at ch ≡ admitted
    → diff_client_in_channel fd ch ≡ false
unfolding admission
admission-new fd size keys at ch e = ground arith

-- With the iterator in range or at the end, the verdict is not the undefined one.
pub admission-defined :
    (fd : ℤ) (size : ℕ) (keys : List Text) (at : ℕ) (ch : Channel)
    → at ≤ length keys
    → admission fd size keys at ch ≢ bad_iterator
unfolding admission
admission-defined fd size keys at ch inside = elim (Option-cases (get_elem? keys at)) [
  | inl absent ↦ ground (arith, get_elem?-inside keys at, nat_key.beq_iff at (length keys))
  | inr (key, here) ↦ ground arith
]
