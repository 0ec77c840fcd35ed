-- ===== src/Safety/Kick.antt =====
-- IRC_PROTOCOL_SERVER/command/Kick.cpp
use irc_protocol_server.Base.{
  ◌≤◌, ℤ, int_key, negsuc, nat_key, Text, text, text_key, ◌==◌, ◌≡◌, refl, true, false, some, List,
  [], ◌∷◌, length, drop, find, arith,
}
use irc_protocol_server.Client.{Client, delete_channel}
use irc_protocol_server.Channel.{Channel, remove_fd_list_client, remove_operator_fd}
use irc_protocol_server.Error.{
  error_nosuchnick_401, error_nosuchchannel_403, error_usernotinchannel_441,
  error_needmoreparams_461, error_chanoprivsneeded_482,
}
use irc_protocol_server.Server.{Server, pure, ◌>>=◌, modify_client, modify_channel}
use irc_protocol_server.Server.Ensures.{
  Ensures, Ensures-bind, Ensures-when, Ensures-pure, Ensures-mono,
}
use irc_protocol_server.Server.Keeps.{
  Keeps, Keeps-Ensures, Keeps-after, Keeps-bind, Keeps-when, Keeps-undefined, Keeps-with_channel,
}
use irc_protocol_server.Server.Links.{WellFormed, Known, shape, shape_at-some, Same-Known}
use irc_protocol_server.Server.Counts.{put_channel}
use irc_protocol_server.Server.Nicknames.{with_nickname-found}
use irc_protocol_server.Server.Quiet.{
  modify_client-Ensures, modify_channel-Ensures, with_channel, with_named, at_client,
}
use irc_protocol_server.Util.{split}
use irc_protocol_server.Util.Quiet.{message_all_channel-Quiet}
use irc_protocol_server.Command.Kick.{
  lacks_privilege, expel, kick_found, kick_channel, kick_channels, kick,
}
use irc_protocol_server.Safety.Live.{Live, Live-Known, Live-then, Live-answer, Same-channel}
use irc_protocol_server.Safety.Part.{left-Live, update-channel, left}

-- A reply, and the value of the round
answered-Live :
    {A : Type 0} (fd : ℤ) (f : Client → Client) (a : A) (s : Server)
    → ((c : Client) → shape (f c) ≡ shape c)
    → Live fd s
    → Ensures (modify_client fd f >>= λ _. pure a) s (λ _. Live fd)
answered-Live fd f a s quiet live =
    Ensures-bind _ _ s (Live-answer fd f s live quiet) λ _ t live'. Ensures-pure a t live'

pub lacks_privilege-Live :
    (fd : ℤ) (names : List Text) (s : Server)
    → Live fd s
    → Ensures (lacks_privilege fd names) s (λ _. Live fd)
unfolding lacks_privilege error_chanoprivsneeded_482
lacks_privilege-Live fd [] s live = Ensures-pure false s live
lacks_privilege-Live fd (name ∷ names) s live =
    with_channel s name _ (λ _. lacks_privilege-Live fd names s live)
      (λ ch _.
        Ensures-when _ _ _ s (λ _. lacks_privilege-Live fd names s live)
          λ _. answered-Live fd _ true s (λ d. refl) live)

-- The three writes that take the target out of the channel
pub removal-Ensures :
    (target : ℤ) (name : Text) (s : Server) (ch : Channel)
    → find name s.channel_list ≡ some ch
    → Known s target
    → Ensures
        (modify_channel name (remove_fd_list_client target) >>= λ _.
          (modify_channel name (remove_operator_fd target) >>= λ _.
          modify_client target (delete_channel name)))
        s
        (λ _ t. t ≡ left target target name s)
removal-Ensures target name s ch there known =
    let gone = update-channel name (remove_fd_list_client target) s ch there in
    Ensures-bind {Q = λ _ t. t ≡ put_channel name (remove_fd_list_client target) s} _ _ s
      (modify_channel-Ensures name _ s ch there refl)
      λ _ t e. rw e (
        Ensures-bind
          {Q = λ _ u.
            u
            ≡ put_channel name (remove_operator_fd target)
                (put_channel name (remove_fd_list_client target) s)}
          _ _ _ (modify_channel-Ensures name _ _ _ gone refl)
          λ _ u e'. rw e' (modify_client-Ensures target _ _ known refl))

expel-Live :
    (fd : ℤ) (name message : Text) (target : ℤ) (client : Client) (s : Server) (ch : Channel)
    → client.fd ≡ target
    → find name s.channel_list ≡ some ch
    → Known s target
    → Live fd s
    → Ensures (expel fd name message target client) s (λ _. Live fd)
unfolding expel
expel-Live fd name message target client s ch key there known live = rw key (
    Live-then _ _ s live
      (message_all_channel-Quiet fd name s live.well (Live-Known live) (text "KICK") message)
      λ _ t same live'.
        let (d, there', _) = Same-channel name ch same there in
        Ensures-mono (removal-Ensures target name t d there' (Same-Known target same known))
          λ _ u e. rw e (left-Live target fd name t live'))

-- The client that a search by nickname finds has its key as its descriptor, or -1.
pub target_key :
    (s : Server) (target : ℤ) (client : Client)
    → WellFormed s
    → find target s.client_list ≡ some client
    → (client.fd == negsuc 0) ≡ false
    → client.fd ≡ target
target_key s target client w here real = ground (
  arith,
  w.keyed target (shape client) (shape_at-some s target client here),
  int_key.beq_iff client.fd (negsuc 0),
)

kick_found-Live :
    (fd : ℤ) (name nickname : Text) (words : List Text) (ch : Channel) (s : Server) (p : ℤ × Client)
    → find name s.channel_list ≡ some ch
    → find p.0 s.client_list ≡ some p.1
    → Live fd s
    → Ensures (kick_found fd name nickname words ch (some p)) s (λ _. Live fd)
unfolding error_nosuchnick_401 error_usernotinchannel_441
kick_found-Live fd name nickname words ch s (target, client) there here live =
    Ensures-when _ _ _ s (λ _. answered-Live fd _ false s (λ d. refl) live)
      λ real. at_client s fd _ (Live-Known live) λ operator _.
        Ensures-when _ _ _ s (λ _. Ensures-pure false s live)
          λ _.
            Ensures-when _ _ _ s
              (λ _.
                Ensures-bind _ _ s
                  (expel-Live fd name _ target client s ch
                    (target_key s target client live.well here real) there (client, here) live)
                  λ _ t live'. Ensures-pure true t live')
              λ _. answered-Live fd _ true s (λ d. refl) live

-- A round with a nickname left
pub kick_channel-Live :
    (fd : ℤ) (name nickname : Text) (nicks words : List Text) (s : Server)
    → Live fd s
    → Ensures (kick_channel fd name (nickname ∷ nicks) words) s (λ _. Live fd)
unfolding kick_channel error_nosuchchannel_403 error_nosuchnick_401
kick_channel-Live fd name nickname nicks words s live =
    with_channel s name _ (λ _. answered-Live fd _ true s (λ d. refl) live)
      λ ch there.
        with_named s nickname _ (λ _. answered-Live fd _ false s (λ d. refl) live)
          λ (target, client) found.
            kick_found-Live fd name nickname words ch s (target, client) there
              (with_nickname-found nickname s.client_list target client live.well.distinct found)
              live

kick_channels-Live :
    (fd : ℤ) (names nicks words : List Text) (s : Server)
    → length names ≤ length nicks
    → Live fd s
    → Ensures (kick_channels fd names nicks words) s (λ _. Live fd)
unfolding kick_channels
kick_channels-Live fd [] nicks words s enough live = Ensures-pure tt s live
kick_channels-Live fd (name ∷ names) [] words s enough live = absurd (omega (arith, enough))
kick_channels-Live fd (name ∷ names) (nickname ∷ nicks) words s enough live =
    Ensures-bind _ _ s (kick_channel-Live fd name nickname nicks words s live) λ go_on t live'.
      Ensures-when _ _ _ t
        (λ _. kick_channels-Live fd names nicks words t (omega (arith, enough)) live')
        λ _. Ensures-pure tt t live'

-- KICK of a client that is on the server and has registered returns from well-formed tables, and
-- keeps them well-formed and that client in them, as long as it names as many nicknames as channels.
pub kick-Live :
    (fd : ℤ) (verb names nicks : Text) (words : List Text) (s : Server)
    → length (split names b',') ≤ length (split nicks b',')
    → Live fd s
    → Ensures (kick fd (verb ∷ names ∷ nicks ∷ words)) s (λ _. Live fd)
unfolding kick
kick-Live fd verb names nicks words s enough live =
    Ensures-bind _ _ s (lacks_privilege-Live fd (split names b',') s live) λ refused t live'.
      Ensures-when _ _ _ t (λ _. Ensures-pure tt t live')
        λ _. kick_channels-Live fd _ _ words t enough live'

kick_channel-Keeps :
    (fd : ℤ) (name : Text) (nicks words : List Text) (s : Server)
    → Live fd s
    → Keeps (kick_channel fd name nicks words) s (λ _. Live fd)
unfolding kick_channel error_nosuchchannel_403
kick_channel-Keeps fd name (nickname ∷ nicks) words s live =
    Keeps-Ensures (kick_channel-Live fd name nickname nicks words s live)
kick_channel-Keeps fd name [] words s live =
    Keeps-with_channel s name _ (λ _. Keeps-Ensures (answered-Live fd _ true s (λ d. refl) live))
      λ ch there. Keeps-undefined s

kick_channels-Keeps :
    (fd : ℤ) (names nicks words : List Text) (s : Server)
    → Live fd s
    → Keeps (kick_channels fd names nicks words) s (λ _. Live fd)
unfolding kick_channels
kick_channels-Keeps fd [] nicks words s live = Keeps-Ensures (Ensures-pure tt s live)
kick_channels-Keeps fd (name ∷ names) nicks words s live =
    Keeps-bind _ _ s (kick_channel-Keeps fd name nicks words s live) λ go_on t live'.
      Keeps-when _ _ _ t (λ _. kick_channels-Keeps fd names (drop 1 nicks) words t live')
        λ _. Keeps-Ensures (Ensures-pure tt t live')

-- KICK with any words: it ends, and where it returns, the tables are well-formed.
pub kick-Keeps :
    (fd : ℤ) (cmd_vector : List Text) (s : Server)
    → Live fd s
    → Keeps (kick fd cmd_vector) s (λ _. Live fd)
unfolding kick error_needmoreparams_461
kick-Keeps fd (verb ∷ names ∷ nicks ∷ words) s live =
    Keeps-after _ _ s (lacks_privilege-Live fd (split names b',') s live) λ refused t live'.
      Keeps-when _ _ _ t (λ _. Keeps-Ensures (Ensures-pure tt t live'))
        λ _. kick_channels-Keeps fd _ _ words t live'
kick-Keeps fd (verb ∷ names ∷ []) s live = Keeps-Ensures (Live-answer fd _ s live (λ d. refl))
kick-Keeps fd (verb ∷ []) s live = Keeps-Ensures (Live-answer fd _ s live (λ d. refl))
kick-Keeps fd [] s live = Keeps-Ensures (Live-answer fd _ s live (λ d. refl))
