-- ===== src/Roster/Quit.antt =====
-- IRC_PROTOCOL_SERVER/command/Quit.cpp and the specification of leaving all channels
use irc_protocol_server.Base.{
  ℤ, int_key, nat_key, Text, text, text_key, ◌≡◌, refl, ◌∙◌, ap, none, some, List, [], ◌∷◌,
  contains, find, find-erase_key, arith, count-contains, Bool-cases, inl, inr,
}
use irc_protocol_server.Client.{Client, reset_client}
use irc_protocol_server.Channel.{Channel, remove_fd_list_client, remove_operator_fd}
use irc_protocol_server.Server.{Server, ◌>>=◌, for_each, dismiss}
use irc_protocol_server.Server.Ensures.{
  Ensures, Ensures-bind, Ensures-both, Ensures-mono, Ensures-pure, Ensures-modify,
}
use irc_protocol_server.Server.Links.{
  WellFormed, Known, Same-WellFormed, Same-member, member, joined, count_in, shape_at-some, roll_at,
  channel_name_lem,
}
use irc_protocol_server.Server.Counts.{put_client, put_channel, member-remove}
use irc_protocol_server.Server.Quiet.{
  put_channel-Same, modify_client-Ensures, with_client, with_channel,
}
use irc_protocol_server.Util.{message_all_channel}
use irc_protocol_server.Util.Quiet.{message_members-Quiet, members-AllKnown}
use irc_protocol_server.Command.Part.{drop_if_empty}
use irc_protocol_server.Command.Quit.{quit_channel, quit}
use irc_protocol_server.Safety.Live.{Same-channel}
use irc_protocol_server.Safety.Part.{
  leave_channel-Ensures, remove_operator_fd-IsCalm, update-channel,
}
use irc_protocol_server.Safety.Leaving.{
  Leaving, still_in, still_left, listed_still, Same-still_in, start-Leaving, known_members,
}
use irc_protocol_server.Safety.Quit.{quit_channel-Leaving}
use irc_protocol_server.Roster.{leave, leave_all, depart, HasRoster, Refines}
use irc_protocol_server.Roster.Part.{removed_once, drop_if_empty-HasRoster}

-- The two removals from the lists of a channel
pub removed-HasRoster :
    (fd : ℤ) (name : Text) (rest : List Text) (s : Server)
    → WellFormed (still_in fd rest s)
    → HasRoster
        (put_channel name (remove_operator_fd fd) (put_channel name (remove_fd_list_client fd) s))
        (leave fd name (member s))
unfolding member roll_at
removed-HasRoster fd name rest s w j n =
    Same-member {s = put_channel name (remove_fd_list_client fd) s} j n
      (put_channel-Same name (remove_operator_fd fd) _ (remove_operator_fd-IsCalm fd))
    ∙ member-remove s fd name j n
    ∙ removed_once (still_in fd rest s) fd name j n w

quit_channel-HasRoster :
    (fd : ℤ) (message name : Text) (rest : List Text) (s : Server)
    → Leaving fd (name ∷ rest) s
    → Refines (quit_channel fd message name) s (leave fd name)
unfolding quit_channel
quit_channel-HasRoster fd message name rest s leaving =
    let (listed, there) = listed_still s fd name rest leaving in
    with_channel s name _ (λ absent. ground (arith, there))
      λ ch found. rw (channel_name_lem (still_in fd (name ∷ rest) s) name ch leaving.well found) (
        Ensures-bind _ _ s (leave_channel-Ensures fd name s ch found) λ _ t e. rw e (
          Ensures-mono
            (told _ _
              (update-channel name (remove_operator_fd fd)
                (put_channel name (remove_fd_list_client fd) s) _
                (update-channel name (remove_fd_list_client fd) s ch found))
              (record { well = still_left s fd name rest leaving.well; known = leaving.known }))
            λ _ u same j n. same j n ∙ removed-HasRoster fd name (name ∷ rest) s leaving.well j n))
  where
    told :
        (t : Server) (d : Channel)
        → find name t.channel_list ≡ some d
        → Leaving fd rest t
        → Ensures
            (message_all_channel fd name (text "QUIT") message >>= λ _. drop_if_empty name)
            t
            (λ _ u. HasRoster u (member t))
    told t d found left =
        Ensures-bind _ _ t
          (message_members-Quiet fd name t left.known
            (λ c there.
              known_members t fd rest c.client_fd_list
                (members-AllKnown (still_in fd rest t) name c left.well there))
            (text "QUIT") message)
          λ _ u same.
            let (e, there, _) = Same-channel name d same found in
            Ensures-mono
              (drop_if_empty-HasRoster name u e
                (channel_name_lem (still_in fd rest u) name e
                  (Same-WellFormed (Same-still_in fd rest t u same) left.well) there)
                there)
              λ _ v stays j n. stays j n ∙ Same-member j n same

quit_channels-HasRoster :
    (fd : ℤ) (message : Text) (names : List Text) (s : Server)
    → Leaving fd names s
    → Ensures
        (for_each names (quit_channel fd message))
        s
        (λ _ t. Known t fd × HasRoster t (leave_all fd names (member s)))
unfolding for_each contains
quit_channels-HasRoster fd message [] s leaving =
    Ensures-pure tt s (leaving.known, λ j n. ground arith)
quit_channels-HasRoster fd message (name ∷ names) s leaving =
    Ensures-bind (quit_channel fd message name) _ s
      (Ensures-both (quit_channel-Leaving fd message name names s leaving)
        (quit_channel-HasRoster fd message name names s leaving))
      λ _ t (leaving', left).
        Ensures-mono (quit_channels-HasRoster fd message names t leaving')
          λ _ u (known, rest). (known, λ j n. ground (arith, rest j n, left j n))

-- Leaving the channels that it lists, a client leaves all.
pub listed-depart :
    (fd : ℤ) (s : Server) (c : Client)
    → WellFormed s
    → find fd s.client_list ≡ some c
    → (j : ℤ) (n : Text) → leave_all fd c.channel_list (member s) j n ≡ depart fd (member s) j n
unfolding joined
listed-depart fd s c w here j n = elim (Bool-cases (contains n c.channel_list)) [
  | inl listed ↦ ground arith
  | inr out ↦ ground (
    arith,
    w.linked fd n,
    count-contains n c.channel_list out,
    ap (count_in n) (shape_at-some s fd c here),
    int_key.beq_iff fd j,
  )
]

-- The client is erased, and no channel changes.
dismiss-gone :
    (fd : ℤ) (s : Server)
    → Known s fd
    → Ensures (dismiss fd) s (λ _ t. HasRoster t (member s) × (find fd t.client_list ≡ none))
unfolding dismiss member roll_at
dismiss-gone fd s known =
    Ensures-bind {Q = λ _ t. t ≡ put_client fd reset_client s} _ _ s
      (modify_client-Ensures fd _ s known refl)
      λ _ t e. rw e (
        Ensures-modify _ (put_client fd reset_client s) (
          (λ j n. refl),
          ground (
            arith,
            find-erase_key fd fd (put_client fd reset_client s).client_list,
            int_key.beq_iff fd fd,
          ),
        ))

-- QUIT of a client that is on the server takes it off the server and out of all channels, and changes
-- nothing else in who is in which channel.
pub quit-Refines :
    (fd : ℤ) (cmd_vector : List Text) (s : Server)
    → WellFormed s
    → Known s fd
    → Ensures
        (quit fd cmd_vector)
        s
        (λ _ t. HasRoster t (depart fd (member s)) × (find fd t.client_list ≡ none))
unfolding quit
quit-Refines fd cmd_vector s w known =
    with_client s fd _ (λ absent. ground (arith, known.1))
      λ c here.
        Ensures-bind _ _ s
          (quit_channels-HasRoster fd _ c.channel_list s (start-Leaving fd s c here w))
          λ _ t (known', left). Ensures-mono (dismiss-gone fd t known') λ _ u (same, gone).
            ((λ j n. same j n ∙ left j n ∙ listed-depart fd s c w here j n), gone)
