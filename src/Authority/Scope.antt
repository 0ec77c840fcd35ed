-- ===== src/Authority/Scope.antt =====
-- What MODE of IRC_PROTOCOL_SERVER/command/Mode.cpp leaves as it was
use mathlib.Core.Option
use irc_protocol_server.Base.{
  ℤ, int_key, nat_key, Text, text_key, ◌≡◌, ◌≢◌, refl, ◌∙◌, ap, Option-cases, inl, inr, List, ◌∷◌,
  [], find, find-update, arith,
}
use irc_protocol_server.Client.{Client}
use irc_protocol_server.Channel.{Channel}
use irc_protocol_server.Server.{Server, modify_client, modify_channel}
use irc_protocol_server.Server.Ensures.{Ensures}
use irc_protocol_server.Server.Counts.{put_channel}
use irc_protocol_server.Server.Yields.{Yields-modify_channel, Ensures-Yields}
use irc_protocol_server.Server.Obeys.{
  Obeys, Obeys-bind, Obeys-option, Obeys-pure, Obeys-when, Obeys-find_channel, Obeys-client_at,
  OfChannels, Obeys-modify_client,
}
use irc_protocol_server.Command.Mode.{show_mode, mode_words, mode}
use irc_protocol_server.Safety.Live.{Live}
use irc_protocol_server.Safety.Modes.{mode-Live}
use irc_protocol_server.Authority.Settings.{unset, IsSetting, set_modes-Obeys}

-- Only settings of the channel `name` differ.
pub record SameBut (name : Text) (s t : Server) : Type 0 where
  pub others : (m : Text) → m ≢ name → find m t.channel_list ≡ find m s.channel_list
  pub kept :
      Option.map unset (find name t.channel_list) ≡ Option.map unset (find name s.channel_list)

module _ (name : Text) (s : Server) where
  SameBut-OfChannels : OfChannels (SameBut name s)
  SameBut-OfChannels t u e only = record {
    others = λ m other. ap (find m) e ∙ only.others m other;
    kept = ap (λ table. Option.map unset (find name table)) e ∙ only.kept;
  }

  put-SameBut :
      (f : Channel → Channel) (t : Server)
      → IsSetting f
      → SameBut name s t
      → SameBut name s (put_channel name f t)
  put-SameBut f t setting only = record {
    others = λ m other. ground (
      arith,
      find-update m name f t.channel_list,
      text_key.beq_iff name m,
      other,
      only.others m other,
    );
    kept = elim (Option-cases (find name t.channel_list)) [
      | inl absent ↦ ground (arith, find-update name name f t.channel_list, only.kept)
      | inr (c, there) ↦ ground (
        arith,
        find-update name name f t.channel_list,
        only.kept,
        setting c,
        text_key.beq_iff name name,
      )
    ];
  }

  setting-Obeys :
      (f : Channel → Channel) → IsSetting f → Obeys (SameBut name s) (modify_channel name f)
  setting-Obeys f setting = record {
    run = λ t only. Yields-modify_channel name f t λ c there. put-SameBut f t setting only;
  }

  module _ (fd : ℤ) where
    reply-Obeys : (f : Client → Client) → Obeys (SameBut name s) (modify_client fd f)
    reply-Obeys f = Obeys-modify_client SameBut-OfChannels fd f

    mode_words-Obeys :
        (cmd_vector : List Text) (c : Channel) (words : List Text)
        → Obeys (SameBut name s) (mode_words fd name cmd_vector c words)
    unfolding show_mode
    mode_words-Obeys cmd_vector c [] = reply-Obeys _
    mode_words-Obeys cmd_vector c (mode_argv ∷ rest) = Obeys-when _ (Obeys-pure tt) (
        Obeys-when _ (set_modes-Obeys SameBut-OfChannels fd name setting-Obeys cmd_vector mode_argv)
          (reply-Obeys _))

    mode-Obeys :
        (verb : Text) (words : List Text) → Obeys (SameBut name s) (mode fd (verb ∷ name ∷ words))
    unfolding mode
    mode-Obeys verb words = Obeys-bind (Obeys-client_at fd) λ client.
        Obeys-option _ (Obeys-find_channel name) (Obeys-when _ (Obeys-pure tt) (reply-Obeys _))
          λ c. Obeys-when _ (Obeys-pure tt) (mode_words-Obeys (verb ∷ name ∷ words) c words)

-- MODE of a client that is on the server and has registered returns from well-formed tables. It
-- leaves all other channels as they were, and the name, the members, the invitations and the topic
-- of the one that it names.
pub mode-SameBut :
    (fd : ℤ) (verb name : Text) (words : List Text) (s : Server)
    → Live fd s
    → Ensures (mode fd (verb ∷ name ∷ words)) s (λ _ t. Live fd t × SameBut name s t)
mode-SameBut fd verb name words s live =
    Ensures-Yields (mode-Live fd (verb ∷ name ∷ words) s live)
      ((mode-Obeys name s fd verb words).run s (record { others = λ m other. refl; kept = refl }))
