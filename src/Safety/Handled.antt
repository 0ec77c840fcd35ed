-- ===== src/Safety/Handled.antt =====
-- The branches of `signIn` of IRC_PROTOCOL_SERVER/src/Command.cpp
use irc_protocol_server.Base.{
  ℤ, int_key, nat_key, Text, text, text_key, ◌==◌, ◌≡◌, true, false, Bool, ◌||◌, List, ◌∷◌,
}
use irc_protocol_server.Server.{M, pure, when◌act◌otherwise◌}
use irc_protocol_server.Command.User.{user}
use irc_protocol_server.Command.Nick.{nick}
use irc_protocol_server.Command.Pass.{pass}
use irc_protocol_server.Command.Privmsg.{privmsg}
use irc_protocol_server.Command.Quit.{quit}
use irc_protocol_server.Command.Part.{part}
use irc_protocol_server.Command.Kick.{kick}
use irc_protocol_server.Command.Mode.{mode}
use irc_protocol_server.Command.Topic.{topic}
use irc_protocol_server.Command.Invite.{invite}
use irc_protocol_server.Command.List.{list}
use irc_protocol_server.Command.Ping.{ping}
use irc_protocol_server.Command.Join.{join}
use irc_protocol_server.Command.Dispatch.{sign_in, unknown_command}

-- What holds of each handler that `signIn` may call; the tests on the verb that matter are given.
pub record Handled (P : M (Unit {0}) → Type 0) (fd : ℤ) (verb : Text) (words : List Text)
    : Type 0 where
  pub branch :
      (b : Bool) (m n : M (Unit {0}))
      → (b ≡ true → P m)
      → (b ≡ false → P n)
      → P (when b act m otherwise n)
  pub on_user : P (user fd (verb ∷ words))
  pub on_nick : P (nick fd (verb ∷ words))
  pub on_pass : P (pass fd (verb ∷ words))
  pub on_privmsg : verb ≡ text "PRIVMSG" → P (privmsg fd (verb ∷ words))
  pub on_quit : P (quit fd (verb ∷ words))
  pub on_part : P (part fd (verb ∷ words))
  pub on_join : verb ≡ text "JOIN" → P (join fd (verb ∷ words))
  pub on_kick : verb ≡ text "KICK" → P (kick fd (verb ∷ words))
  pub on_mode : P (mode fd (verb ∷ words))
  pub on_topic : P (topic fd (verb ∷ words))
  pub on_invite : P (invite fd (verb ∷ words))
  pub on_list : P (list fd (verb ∷ words))
  pub on_ping : P (ping fd (verb ∷ words))
  pub on_who : P (pure tt)
  pub on_unknown : P (unknown_command fd verb)

pub sign_in-Handled :
    {P : M (Unit {0}) → Type 0} (fd : ℤ) (verb : Text) (words : List Text)
    → Handled P fd verb words
    → P (sign_in fd (verb ∷ words))
unfolding sign_in
sign_in-Handled {P} fd verb words h =
    h.branch _ _ _ (λ _. h.on_user)
      λ _.
        h.branch _ _ _ (λ _. h.on_nick)
          λ _.
            h.branch _ _ _ (λ _. h.on_pass)
              λ _.
                h.branch _ _ _ (λ e. h.on_privmsg ((text_key.beq_iff verb (text "PRIVMSG")).0 e))
                  λ _.
                    h.branch _ _ _ (λ _. h.on_quit)
                      λ _.
                        h.branch _ _ _ (λ _. h.on_part)
                          λ _.
                            h.branch _ _ _
                              (λ e. h.on_join ((text_key.beq_iff verb (text "JOIN")).0 e))
                              λ _. later
  where
    later : P (
        when verb == text "KICK"
        act kick fd (verb ∷ words)
        otherwise when verb == text "MODE"
        act mode fd (verb ∷ words)
        otherwise when verb == text "TOPIC"
        act topic fd (verb ∷ words)
        otherwise when verb == text "INVITE"
        act invite fd (verb ∷ words)
        otherwise when verb == text "LIST"
        act list fd (verb ∷ words)
        otherwise when verb == text "PING"
        act ping fd (verb ∷ words)
        otherwise when verb == text "WHOIS" || verb == text "WHO"
        act pure tt
        otherwise unknown_command fd verb)
    later =
        h.branch _ _ _ (λ e. h.on_kick ((text_key.beq_iff verb (text "KICK")).0 e))
          λ _.
            h.branch _ _ _ (λ _. h.on_mode)
              λ _.
                h.branch _ _ _ (λ _. h.on_topic)
                  λ _.
                    h.branch _ _ _ (λ _. h.on_invite)
                      λ _.
                        h.branch _ _ _ (λ _. h.on_list)
                          λ _.
                            h.branch _ _ _ (λ _. h.on_ping)
                              λ _. h.branch _ _ _ (λ _. h.on_who) λ _. h.on_unknown
