-- ===== src/Authority/Settings.antt =====
-- The loop of IRC_PROTOCOL_SERVER/command/Mode.cpp: all that it writes of a channel are settings.
use irc_protocol_server.Base.{
  ℕ, ℤ, int_key, nat_key, Text, text_key, ◌≡◌, false, Option, none, some, List, [], ◌∷◌, refl,
  arith,
}
use irc_protocol_server.Client.{Client}
use irc_protocol_server.Channel.{
  Channel, set_mode, set_operator, add_operator_fd, remove_operator_fd, set_key, set_limit,
}
use irc_protocol_server.Server.{Server, M, pure, ◌>>=◌, modify_client, modify_channel}
use irc_protocol_server.Server.Obeys.{
  Obeys, Obeys-bind, Obeys-pure, Obeys-when, Obeys-find_client, Obeys-find_channel,
  Obeys-deref_channel, Obeys-client_at, Obeys-modify_client, OfChannels,
}
use irc_protocol_server.Util.Obeys.{plus_message_all_channel-Obeys}
use irc_protocol_server.Command.Mode.{
  ModeState, flag_mode, clear_key, key_value, key_mode, clear_limit, limit_of, limit_number,
  limit_value, limit_mode, set_operator_mode, operator_found, operator_value, operator_mode,
  mode_letter, after_letter, mode_letters, start, broadcast_mode, set_modes,
}

-- A channel, less what MODE may write
unfoldable pub unset : Channel → Channel
unset c = record c {
  operator_fd_list = [];
  key = [];
  invite_status = false;
  topic_status = false;
  key_status = false;
  limit_status = false;
  limit = 0;
}

abbrev pub IsSetting : (Channel → Channel) → Type 0
IsSetting f = (c : Channel) → unset (f c) ≡ unset c

set_mode-IsSetting : (letter sign : ℕ) (fd : ℤ) → IsSetting (set_mode letter sign fd)
unfolding unset set_mode set_operator add_operator_fd remove_operator_fd
set_mode-IsSetting letter sign fd c = ground arith

set_key-IsSetting : (key : Text) → IsSetting (set_key key)
unfolding unset set_key
set_key-IsSetting key c = refl

set_limit-IsSetting : (limit : ℕ) → IsSetting (set_limit limit)
unfolding unset set_limit
set_limit-IsSetting limit c = refl

pub broadcast_mode-Obeys :
    {P : Server → Type 0} (of : OfChannels P) (fd : ℤ) (n : Text) (result : Option ModeState)
    → Obeys P (broadcast_mode fd n result)
broadcast_mode-Obeys of fd n none = Obeys-pure tt
broadcast_mode-Obeys of fd n (some st) =
    Obeys-bind (Obeys-bind (Obeys-find_channel n) Obeys-deref_channel)
      λ channel. Obeys-when _ (Obeys-pure tt) (plus_message_all_channel-Obeys of fd n _ _ _)

module _ {P : Server → Type 0} (of : OfChannels P) (fd : ℤ) (n : Text)
    (setting : (f : Channel → Channel) → IsSetting f → Obeys P (modify_channel n f)) where
  set_mode-Obeys :
      (letter sign : ℕ) (who : ℤ) → Obeys P (modify_channel n (set_mode letter sign who))
  set_mode-Obeys letter sign who = setting _ (set_mode-IsSetting letter sign who)

  answer-Obeys :
      {A : Type 0} (f : Client → Client) (a : A) → Obeys P (modify_client fd f >>= λ _. pure a)
  answer-Obeys f a = Obeys-bind (Obeys-modify_client of fd f) λ _. Obeys-pure a

  flag_mode-Obeys :
      (letter : ℕ) (channel : Channel) (st : ModeState) → Obeys P (flag_mode fd n letter channel st)
  unfolding flag_mode
  flag_mode-Obeys letter channel st =
      Obeys-when _ (Obeys-pure _) (Obeys-bind (set_mode-Obeys letter st.sign fd) λ _. Obeys-pure _)

  -- A key or a limit is written, then the flag.
  setting-Obeys :
      {A : Type 0} (f : Channel → Channel) (letter sign : ℕ) (a : A)
      → IsSetting f
      → Obeys P
          (modify_channel n f >>= λ _. (modify_channel n (set_mode letter sign fd) >>= λ _. pure a))
  setting-Obeys f letter sign a keep =
      Obeys-bind (setting f keep) λ _. Obeys-bind (set_mode-Obeys letter sign fd) λ _. Obeys-pure a

  clear_key-Obeys : (st : ModeState) → Obeys P (clear_key fd n st)
  unfolding clear_key
  clear_key-Obeys st = Obeys-when _ (setting-Obeys _ _ _ _ (set_key-IsSetting _)) (Obeys-pure _)

  key_value-Obeys : (st : ModeState) (value : Option Text) → Obeys P (key_value fd n st value)
  key_value-Obeys st none = clear_key-Obeys st
  key_value-Obeys st (some value) =
      Obeys-when _ (setting-Obeys _ _ _ _ (set_key-IsSetting _)) (clear_key-Obeys st)

  clear_limit-Obeys : (st : ModeState) → Obeys P (clear_limit fd n st)
  unfolding clear_limit
  clear_limit-Obeys st = Obeys-when _ (setting-Obeys _ _ _ _ (set_limit-IsSetting _)) (Obeys-pure _)

  limit_number-Obeys :
      (value : Text) (st : ModeState) (limit : Option ℕ)
      → Obeys P (limit_number fd n value st limit)
  limit_number-Obeys value st none = Obeys-pure _
  limit_number-Obeys value st (some limit) =
      Obeys-when _ (setting-Obeys _ _ _ _ (set_limit-IsSetting _)) (clear_limit-Obeys st)

  limit_value-Obeys : (st : ModeState) (value : Option Text) → Obeys P (limit_value fd n st value)
  limit_value-Obeys st none = clear_limit-Obeys st
  limit_value-Obeys st (some value) = limit_number-Obeys value st (limit_of value)

  set_operator_mode-Obeys :
      (target : Client) (st : ModeState) → Obeys P (set_operator_mode fd n target st)
  unfolding set_operator_mode
  set_operator_mode-Obeys target st =
      Obeys-bind (set_mode-Obeys b'o' st.sign target.fd) λ _. Obeys-pure _

  operator_found-Obeys :
      (nickname : Text) (channel : Channel) (st : ModeState) (found : Option (ℤ × Client))
      → Obeys P (operator_found fd n nickname channel st found)
  operator_found-Obeys nickname channel st none = answer-Obeys _ none
  operator_found-Obeys nickname channel st (some (_, target)) =
      Obeys-bind (Obeys-client_at fd) λ client. Obeys-when _ (Obeys-pure none) (
        Obeys-when _ (answer-Obeys _ none) (
          Obeys-when _ (set_operator_mode-Obeys target st) (
            Obeys-when _ (Obeys-when _ (set_operator_mode-Obeys target st) (answer-Obeys _ none))
              (Obeys-pure (some st)))))

  operator_value-Obeys :
      (channel : Channel) (st : ModeState) (value : Option Text)
      → Obeys P (operator_value fd n channel st value)
  operator_value-Obeys channel st none = Obeys-pure (some st)
  operator_value-Obeys channel st (some nickname) =
      Obeys-bind (Obeys-find_client nickname)
        λ found. operator_found-Obeys nickname channel st found

  mode_letter-Obeys :
      (cmd_vector : List Text) (letter : ℕ) (st : ModeState)
      → Obeys P (mode_letter fd n cmd_vector letter st)
  unfolding mode_letter key_mode limit_mode operator_mode
  mode_letter-Obeys cmd_vector letter st = Obeys-when _ (Obeys-pure _) (
      Obeys-bind (Obeys-bind (Obeys-find_channel n) Obeys-deref_channel) λ channel.
        Obeys-when _ (flag_mode-Obeys letter channel st) (
          Obeys-when _ (Obeys-when _ (Obeys-pure _) (key_value-Obeys st _)) (
            Obeys-when _ (Obeys-when _ (Obeys-pure _) (limit_value-Obeys st _))
              (Obeys-when _ (operator_value-Obeys channel st _) (answer-Obeys _ (some st))))))

  after_letter-Obeys :
      (next : Option ModeState) (rest : ModeState → M (Option ModeState))
      → ((st : ModeState) → Obeys P (rest st))
      → Obeys P (after_letter next rest)
  after_letter-Obeys none rest h = Obeys-pure none
  after_letter-Obeys (some st) rest h = h st

  mode_letters-Obeys :
      (cmd_vector : List Text) (letters : Text) (st : ModeState)
      → Obeys P (mode_letters fd n cmd_vector letters st)
  unfolding mode_letters
  mode_letters-Obeys cmd_vector [] st = Obeys-pure (some st)
  mode_letters-Obeys cmd_vector (letter ∷ letters) st =
      Obeys-bind (mode_letter-Obeys cmd_vector letter st)
        λ next. after_letter-Obeys next _ λ st'. mode_letters-Obeys cmd_vector letters st'

  pub set_modes-Obeys :
      (cmd_vector : List Text) (mode_argv : Text) → Obeys P (set_modes fd n cmd_vector mode_argv)
  unfolding set_modes
  set_modes-Obeys cmd_vector mode_argv =
      Obeys-bind (mode_letters-Obeys cmd_vector mode_argv start)
        λ result. broadcast_mode-Obeys of fd n result
