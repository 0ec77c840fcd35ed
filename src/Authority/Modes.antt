-- ===== src/Authority/Modes.antt =====
-- IRC_PROTOCOL_SERVER/command/Mode.cpp of a client that is no operator of the channel `name`
use irc_protocol_server.Base.{
  ℤ, int_key, nat_key, Text, text_key, ◌≡◌, ◌≢◌, false, some, List, [], ◌∷◌, find, ap,
}
use irc_protocol_server.Client.{Client}
use irc_protocol_server.Channel.{Channel, diff_operator}
use irc_protocol_server.Server.{Server, M, modify_client, modify_channel}
use irc_protocol_server.Server.Yields.{Yields, Yields-when, Yields-with_channel}
use irc_protocol_server.Server.Obeys.{
  Obeys, Obeys-bind, Obeys-pure, Obeys-when, Obeys-client_at, Obeys-modify_client,
}
use irc_protocol_server.Command.Mode.{show_mode, mode_words, mode}
use irc_protocol_server.Authority.Writes.{other-Obeys}
use irc_protocol_server.Authority.Settings.{unset, IsSetting, set_modes-Obeys}
use irc_protocol_server.Authority.Members.{idle}
use irc_protocol_server.Authority.Entering.{Stands}
use irc_protocol_server.Authority.Operators.{foreign}

module _ (fd : ℤ) (name : Text) (ch : Channel) (out : diff_operator fd ch ≡ false) where
  abbrev Safe : {A : Type 0} → M A → Type 0
  Safe m = Obeys (Stands fd name ch out) m

  setting-Obeys :
      (n : Text) → n ≢ name → (f : Channel → Channel) → IsSetting f → Safe (modify_channel n f)
  unfolding unset
  setting-Obeys n other f setting =
      other-Obeys fd name ch out ⊥ n f other λ c. ap (λ (d : Channel). d.channel_name) (setting c)

  error-Obeys : (f : Client → Client) → Safe (modify_client fd f)
  error-Obeys f = Obeys-modify_client (idle fd name ch out ⊥) fd f

  mode_words-Yields :
      (n : Text) (cmd_vector : List Text) (c : Channel) (words : List Text) (s : Server)
      → find n s.channel_list ≡ some c
      → Stands fd name ch out s
      → Yields (mode_words fd n cmd_vector c words) s (λ _. Stands fd name ch out)
  unfolding show_mode
  mode_words-Yields n cmd_vector c [] s there g = (error-Obeys _).run s g
  mode_words-Yields n cmd_vector c (mode_argv ∷ rest) s there g =
      Yields-when _ _ _ s (λ _. (Obeys-pure tt).run s g)
        λ _.
          Yields-when _ _ _ s
            (λ power.
              (set_modes-Obeys (idle fd name ch out ⊥) fd n
                  (setting-Obeys n (foreign fd name ch out n c s there power g)) cmd_vector
                  mode_argv).run
                s g)
            λ _. (error-Obeys _).run s g

  pub mode-Obeys : (words : List Text) → Safe (mode fd words)
  unfolding mode
  mode-Obeys [] = error-Obeys _
  mode-Obeys (verb ∷ []) = error-Obeys _
  mode-Obeys (verb ∷ n ∷ words) = Obeys-bind (Obeys-client_at fd) λ client. record {
    run = λ s g.
        Yields-with_channel s n _ (λ free. (Obeys-when _ (Obeys-pure tt) (error-Obeys _)).run s g)
          λ c there.
            Yields-when _ _ _ s (λ _. (Obeys-pure tt).run s g)
              λ _. mode_words-Yields n (verb ∷ n ∷ words) c words s there g;
  }
