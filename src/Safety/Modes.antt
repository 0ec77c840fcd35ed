-- ===== src/Safety/Modes.antt =====
-- The loop of IRC_PROTOCOL_SERVER/command/Mode.cpp, and the handler
use irc_protocol_server.Base.{
  ℕ, ℤ, int_key, nat_key, Text, text_key, refl, Option, none, some, List, [], ◌∷◌, get_elem?,
}
use irc_protocol_server.Client.{append_recive_buf}
use irc_protocol_server.Channel.{Channel}
use irc_protocol_server.Error.{
  error_nosuchchannel_403, error_needmoreparams_461, error_unknownmode_472,
  error_chanoprivsneeded_482,
}
use irc_protocol_server.Server.{Server, M}
use irc_protocol_server.Server.Ensures.{Ensures, Ensures-bind, Ensures-when, Ensures-pure}
use irc_protocol_server.Server.Quiet.{with_channel, with_named, at_client, at_channel}
use irc_protocol_server.Util.Quiet.{plus_message_all_channel-Quiet}
use irc_protocol_server.Command.Mode.{
  ModeState, operator_value, operator_mode, mode_letter, mode_letters, start, broadcast_mode,
  set_modes, mode_words, show_mode, mode, after_letter,
}
use irc_protocol_server.Safety.Live.{Live, Live-Known, Live-Quiet, Live-answer}
use irc_protocol_server.Safety.Mode.{
  Within, flag_mode-Within, key_mode-Within, limit_mode-Within, operator_found-Within,
  answer-Within,
}

module _ (fd : ℤ) (name : Text) where
  operator_value-Within :
      (ch : Channel) (st : ModeState) (value : Option Text) (s : Server)
      → Within fd name s
      → Ensures (operator_value fd name ch st value) s (λ _. Within fd name)
  operator_value-Within ch st none s within = Ensures-pure (some st) s within
  operator_value-Within ch st (some nickname) s within =
      with_named s nickname _ (λ _. operator_found-Within fd name nickname ch st none s within)
        λ p _. operator_found-Within fd name nickname ch st (some p) s within

  mode_letter-Within :
      (cmd_vector : List Text) (letter : ℕ) (st : ModeState) (s : Server)
      → Within fd name s
      → Ensures (mode_letter fd name cmd_vector letter st) s (λ _. Within fd name)
  unfolding mode_letter operator_mode error_unknownmode_472
  mode_letter-Within cmd_vector letter st s within =
      let ch = within.channel in
      Ensures-when _ _ _ s (λ _. Ensures-pure _ s within)
        λ _. at_channel s name _ ch within.there (
          Ensures-when _ _ _ s (λ _. flag_mode-Within fd name letter ch st s within)
            λ _.
              Ensures-when _ _ _ s (λ _. key_mode-Within fd name cmd_vector ch st s within)
                λ _.
                  Ensures-when _ _ _ s (λ _. limit_mode-Within fd name cmd_vector ch st s within)
                    λ _.
                      Ensures-when _ _ _ s
                        (λ _.
                          operator_value-Within ch st (get_elem? cmd_vector st.value_cnt) s within)
                        λ _. answer-Within fd name _ (some st) s (λ d. refl) within)

  after_letter-Within :
      (next : Option ModeState) (rest : ModeState → M (Option ModeState)) (t : Server)
      → Within fd name t
      → ((st : ModeState) → Ensures (rest st) t (λ _. Within fd name))
      → Ensures (after_letter next rest) t (λ _. Within fd name)
  after_letter-Within none rest t w k = Ensures-pure none t w
  after_letter-Within (some st) rest t w k = k st

  mode_letters-Within :
      (cmd_vector : List Text) (letters : Text) (st : ModeState) (s : Server)
      → Within fd name s
      → Ensures (mode_letters fd name cmd_vector letters st) s (λ _. Within fd name)
  unfolding mode_letters
  mode_letters-Within cmd_vector [] st s within = Ensures-pure (some st) s within
  mode_letters-Within cmd_vector (letter ∷ letters) st s within =
      Ensures-bind _ _ s (mode_letter-Within cmd_vector letter st s within) λ next t w.
        after_letter-Within next _ t w (λ st'. mode_letters-Within cmd_vector letters st' t w)

  broadcast_mode-Live :
      (result : Option ModeState) (s : Server)
      → Within fd name s
      → Ensures (broadcast_mode fd name result) s (λ _. Live fd)
  broadcast_mode-Live none s within = Ensures-pure tt s within.live
  broadcast_mode-Live (some st) s within = at_channel s name _ within.channel within.there (
      Ensures-when _ _ _ s (λ _. Ensures-pure tt s within.live)
        λ _. Live-Quiet within.live (
          plus_message_all_channel-Quiet fd name s within.live.well (Live-Known within.live) _ _ _))

  set_modes-Live :
      (cmd_vector : List Text) (mode_argv : Text) (s : Server)
      → Within fd name s
      → Ensures (set_modes fd name cmd_vector mode_argv) s (λ _. Live fd)
  unfolding set_modes
  set_modes-Live cmd_vector mode_argv s within =
      Ensures-bind _ _ s (mode_letters-Within cmd_vector mode_argv start s within)
        λ result t w. broadcast_mode-Live result t w

  mode_words-Live :
      (cmd_vector : List Text) (words : List Text) (s : Server) (within : Within fd name s)
      → Ensures (mode_words fd name cmd_vector within.channel words) s (λ _. Live fd)
  unfolding show_mode append_recive_buf error_chanoprivsneeded_482
  mode_words-Live cmd_vector [] s within = Live-answer fd _ s within.live (λ d. refl)
  mode_words-Live cmd_vector (mode_argv ∷ _) s within =
      Ensures-when _ _ _ s (λ _. Ensures-pure tt s within.live)
        λ _.
          Ensures-when _ _ _ s (λ _. set_modes-Live cmd_vector mode_argv s within)
            λ _. Live-answer fd _ s within.live (λ d. refl)

-- MODE of a client that is on the server and has registered returns from well-formed
-- tables, and keeps them well-formed and that client in them.
pub mode-Live :
    (fd : ℤ) (cmd_vector : List Text) (s : Server)
    → Live fd s
    → Ensures (mode fd cmd_vector) s (λ _. Live fd)
unfolding mode error_needmoreparams_461 error_nosuchchannel_403
mode-Live fd [] s live = Live-answer fd _ s live (λ d. refl)
mode-Live fd (verb ∷ []) s live = Live-answer fd _ s live (λ d. refl)
mode-Live fd (verb ∷ name ∷ words) s live = at_client s fd _ (Live-Known live) λ client here.
    with_channel s name _
      (λ _.
        Ensures-when _ _ _ s (λ _. Ensures-pure tt s live) λ _. Live-answer fd _ s live (λ d. refl))
      λ ch there.
        Ensures-when _ _ _ s (λ _. Ensures-pure tt s live)
          λ _.
            mode_words-Live fd name (verb ∷ name ∷ words) words s
              (record { live = live; channel = ch; there = there })
