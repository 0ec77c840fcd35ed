-- ===== src/Safety/SignIn.antt =====
-- `signIn` of IRC_PROTOCOL_SERVER/src/Command.cpp: a command of a client that is registered
use irc_protocol_server.Base.{
  suc, ◌≤◌, ℤ, int_key, nat_key, Text, text, text_key, ◌≡◌, refl, ◌⊎◌, List, [], ◌∷◌, length,
}
use irc_protocol_server.Error.{error_needmoreparams_461, error_unknowncommand_421}
use irc_protocol_server.Server.{Server, M}
use irc_protocol_server.Server.Ensures.{Ensures, Ensures-mono, Ensures-when, Ensures-pure}
use irc_protocol_server.Server.Keeps.{Keeps, Keeps-Ensures, Keeps-mono, Keeps-when}
use irc_protocol_server.Server.Links.{WellFormed, Same-WellFormed}
use irc_protocol_server.Util.{split}
use irc_protocol_server.Command.Privmsg.{privmsg}
use irc_protocol_server.Command.Kick.{kick}
use irc_protocol_server.Safety.Handled.{sign_in-Handled}
use irc_protocol_server.Safety.Kick.{kick-Live, kick-Keeps}
use irc_protocol_server.Safety.Privmsg.{AllAddressed, privmsg-Same, privmsg-Keeps}
use irc_protocol_server.Safety.Joining.{join-Keeps}
use irc_protocol_server.Server.Quiet.{with_client}
use irc_protocol_server.Command.Join.{join, join_channel_argv, join_key_argv}
use irc_protocol_server.Command.Dispatch.{sign_in, unknown_command}
use irc_protocol_server.Safety.Live.{Live, Live-Known, Live-answer}
use irc_protocol_server.Safety.Part.{part-Live}
use irc_protocol_server.Safety.Joins.{join-Live}
use irc_protocol_server.Safety.Reports.{ping-Live, list-Live, topic-Live, invite-Live}
use irc_protocol_server.Safety.Modes.{mode-Live}
use irc_protocol_server.Safety.SignUp.{pass-WellFormed, user-WellFormed}
use irc_protocol_server.Safety.Nick.{nick-WellFormed}
use irc_protocol_server.Safety.Quit.{quit-WellFormed}

-- The words behind JOIN give no key, or a key for all channels but one.
abbrev pub KeysGiven : List Text → Type 0
KeysGiven [] = Unit {0}
KeysGiven (names ∷ words) =
    (words ≡ [])
    ⊎ (length (join_channel_argv names)
        ≤ suc (length (join_key_argv (length (join_channel_argv names)) words)))

join_words-Live :
    (fd : ℤ) (verb : Text) (words : List Text) (s : Server)
    → KeysGiven words
    → Live fd s
    → Ensures (join fd (verb ∷ words)) s (λ _. Live fd)
unfolding join error_needmoreparams_461
join_words-Live fd verb [] s given live = Live-answer fd _ s live (λ d. refl)
join_words-Live fd verb (names ∷ words) s given live = join-Live fd verb names words s given live

unknown_command-Live :
    (fd : ℤ) (verb : Text) (s : Server)
    → Live fd s
    → Ensures (unknown_command fd verb) s (λ _. Live fd)
unfolding unknown_command error_unknowncommand_421
unknown_command-Live fd verb s live =
    with_client s fd _ (λ _. Ensures-pure tt s live) λ c here. Live-answer fd _ s live (λ d. refl)

well :
    {A : Type 0} {fd : ℤ} {m : M A} {s : Server}
    → Ensures m s (λ _. Live fd)
    → Ensures m s (λ _. WellFormed)
well h = Ensures-mono h λ _ t live. live.well

-- The words behind PRIVMSG name targets that can be reached; fewer words get a reply.
abbrev pub TargetsGiven : Server → List Text → Type 0
TargetsGiven s [] = Unit {0}
TargetsGiven s (targets ∷ []) = Unit {0}
TargetsGiven s (targets ∷ word ∷ words) = AllAddressed s (split targets b',')

privmsg_words-WellFormed :
    (fd : ℤ) (verb : Text) (words : List Text) (s : Server)
    → TargetsGiven s words
    → Live fd s
    → Ensures (privmsg fd (verb ∷ words)) s (λ _. WellFormed)
unfolding privmsg error_needmoreparams_461
privmsg_words-WellFormed fd verb [] s given live = well (Live-answer fd _ s live (λ d. refl))
privmsg_words-WellFormed fd verb (targets ∷ []) s given live =
    well (Live-answer fd _ s live (λ d. refl))
privmsg_words-WellFormed fd verb (targets ∷ word ∷ words) s given live =
    Ensures-mono (privmsg-Same fd verb targets word words s live.well (Live-Known live) given)
      λ _ t same. Same-WellFormed same live.well

-- The words behind KICK give a nickname for each channel; fewer words get a reply.
abbrev pub NicksGiven : List Text → Type 0
NicksGiven [] = Unit {0}
NicksGiven (names ∷ []) = Unit {0}
NicksGiven (names ∷ nicks ∷ words) = length (split names b',') ≤ length (split nicks b',')

kick_words-Live :
    (fd : ℤ) (verb : Text) (words : List Text) (s : Server)
    → NicksGiven words
    → Live fd s
    → Ensures (kick fd (verb ∷ words)) s (λ _. Live fd)
unfolding kick error_needmoreparams_461
kick_words-Live fd verb [] s given live = Live-answer fd _ s live (λ d. refl)
kick_words-Live fd verb (names ∷ []) s given live = Live-answer fd _ s live (λ d. refl)
kick_words-Live fd verb (names ∷ nicks ∷ words) s given live =
    kick-Live fd verb names nicks words s given live

-- A command of a client that is on the server and has registered returns from well-formed tables
-- and leaves them well-formed, where the targets of PRIVMSG are channel names or nicknames of
-- clients, KICK has a nickname for each channel, and JOIN comes with no key or with a key for all
-- channels but one.
pub sign_in-WellFormed :
    (fd : ℤ) (verb : Text) (words : List Text) (s : Server)
    → (verb ≡ text "PRIVMSG" → TargetsGiven s words)
    → (verb ≡ text "KICK" → NicksGiven words)
    → (verb ≡ text "JOIN" → KeysGiven words)
    → Live fd s
    → Ensures (sign_in fd (verb ∷ words)) s (λ _. WellFormed)
sign_in-WellFormed fd verb words s targets nicks keys live =
    sign_in-Handled {P = λ m. Ensures m s (λ _. WellFormed)} fd verb words (record {
      branch = λ b m n. Ensures-when b m n s;
      on_user = user-WellFormed fd _ s live.well (Live-Known live);
      on_nick = nick-WellFormed fd _ s live.well (Live-Known live);
      on_pass = pass-WellFormed fd _ s live.well (Live-Known live);
      on_privmsg = λ e. privmsg_words-WellFormed fd verb words s (targets e) live;
      on_quit = quit-WellFormed fd _ s live.well;
      on_part = well (part-Live fd _ s live);
      on_join = λ e. well (join_words-Live fd verb words s (keys e) live);
      on_kick = λ e. well (kick_words-Live fd verb words s (nicks e) live);
      on_mode = well (mode-Live fd _ s live);
      on_topic = well (topic-Live fd _ s live);
      on_invite = well (invite-Live fd _ s live);
      on_list = well (list-Live fd _ s live);
      on_ping = well (ping-Live fd _ s live);
      on_who = Ensures-pure tt s live.well;
      on_unknown = well (unknown_command-Live fd verb s live);
    })

ends_well :
    {A : Type 0} {fd : ℤ} {m : M A} {s : Server}
    → Keeps m s (λ _. Live fd)
    → Keeps m s (λ _. WellFormed)
ends_well h = Keeps-mono h λ _ t live. live.well

-- The same with any words: the command ends, and where it returns, the tables are well-formed.
pub sign_in-Keeps :
    (fd : ℤ) (cmd_vector : List Text) (s : Server)
    → Live fd s
    → Keeps (sign_in fd cmd_vector) s (λ _. WellFormed)
unfolding sign_in
sign_in-Keeps fd [] s live = Keeps-Ensures (Ensures-pure tt s live.well)
sign_in-Keeps fd (verb ∷ words) s live =
    sign_in-Handled {P = λ m. Keeps m s (λ _. WellFormed)} fd verb words (record {
      branch = λ b m n. Keeps-when b m n s;
      on_user = Keeps-Ensures (user-WellFormed fd _ s live.well (Live-Known live));
      on_nick = Keeps-Ensures (nick-WellFormed fd _ s live.well (Live-Known live));
      on_pass = Keeps-Ensures (pass-WellFormed fd _ s live.well (Live-Known live));
      on_privmsg = λ _. ends_well (privmsg-Keeps fd _ s live);
      on_quit = Keeps-Ensures (quit-WellFormed fd _ s live.well);
      on_part = Keeps-Ensures (well (part-Live fd _ s live));
      on_join = λ _. ends_well (join-Keeps fd _ s live);
      on_kick = λ _. ends_well (kick-Keeps fd _ s live);
      on_mode = Keeps-Ensures (well (mode-Live fd _ s live));
      on_topic = Keeps-Ensures (well (topic-Live fd _ s live));
      on_invite = Keeps-Ensures (well (invite-Live fd _ s live));
      on_list = Keeps-Ensures (well (list-Live fd _ s live));
      on_ping = Keeps-Ensures (well (ping-Live fd _ s live));
      on_who = Keeps-Ensures (Ensures-pure tt s live.well);
      on_unknown = Keeps-Ensures (well (unknown_command-Live fd verb s live));
    })
