-- ===== src/Safety/Mode.antt =====
-- IRC_PROTOCOL_SERVER/command/Mode.cpp, on a channel that is in the table
use irc_protocol_server.Base.{
  ℕ, ℤ, int_key, nat_key, Text, text_key, ◌≡◌, refl, Option, none, some, List, [], get_elem?, find,
  arith,
}
use irc_protocol_server.Client.{Client}
use irc_protocol_server.Channel.{Channel, set_mode, set_key, set_limit}
use irc_protocol_server.Error.{
  error_nosuchnick_401, error_usernotinchannel_441, error_chanoprivsneeded_482,
}
use irc_protocol_server.Server.{Server, M, pure, ◌>>=◌, modify_client, modify_channel}
use irc_protocol_server.Server.Ensures.{Ensures, Ensures-bind, Ensures-when, Ensures-pure}
use irc_protocol_server.Server.Links.{Same}
use irc_protocol_server.Server.Quiet.{
  Quiet, IsQuiet, IsCalm, modify_client-Quiet, modify_channel-Quiet, at_client,
}
use irc_protocol_server.Command.Mode.{
  ModeState, flag_mode, clear_key, key_value, key_mode, clear_limit, limit_number, limit_value,
  limit_mode, set_operator_mode, operator_found, mode, limit_of,
}
use irc_protocol_server.Safety.Live.{Live, Live-Known, Same-Live, Same-channel}

-- The acting client is on the server, and the channel is in the table.
pub record Within (fd : ℤ) (name : Text) (s : Server) : Type 0 where
  pub live : Live fd s
  pub channel : Channel
  pub there : find name s.channel_list ≡ some channel

Same-Within : {s t : Server} (fd : ℤ) (name : Text) → Same s t → Within fd name s → Within fd name t
Same-Within fd name same within =
    let (d, there, _) = Same-channel name within.channel same within.there in
    record { live = Same-Live same within.live; channel = d; there = there }

set_mode-IsCalm : (mode sign : ℕ) (fd : ℤ) → IsCalm (set_mode mode sign fd)
unfolding set_mode
set_mode-IsCalm mode sign fd c = ground arith

set_key-IsCalm : (key : Text) → IsCalm (set_key key)
unfolding set_key
set_key-IsCalm key c = refl

set_limit-IsCalm : (limit : ℕ) → IsCalm (set_limit limit)
unfolding set_limit
set_limit-IsCalm limit c = refl

module _ (fd : ℤ) (name : Text) where
  pub Within-then :
      {A B : Type 0} (m : M A) (f : A → M B) (s : Server)
      → Within fd name s
      → Quiet m s
      → ((a : A) (t : Server) → Within fd name t → Ensures (f a) t (λ _. Within fd name))
      → Ensures (m >>= f) s (λ _. Within fd name)
  Within-then m f s within quiet k =
      Ensures-bind m f s quiet λ a t same. k a t (Same-Within fd name same within)

  write-Quiet :
      (f : Channel → Channel) (s : Server)
      → Within fd name s
      → IsCalm f
      → Quiet (modify_channel name f) s
  write-Quiet f s within calm = modify_channel-Quiet name f s within.channel calm within.there

  -- One write, or two, and a result
  write-Within :
      {A : Type 0} (f : Channel → Channel) (a : A) (s : Server)
      → IsCalm f
      → Within fd name s
      → Ensures (modify_channel name f >>= λ _. pure a) s (λ _. Within fd name)
  write-Within f a s calm within =
      Within-then _ _ s within (write-Quiet f s within calm) λ _ t w. Ensures-pure a t w

  writes-Within :
      {A : Type 0} (f g : Channel → Channel) (a : A) (s : Server)
      → IsCalm f
      → IsCalm g
      → Within fd name s
      → Ensures
          (modify_channel name f >>= λ _. (modify_channel name g >>= λ _. pure a))
          s
          (λ _. Within fd name)
  writes-Within f g a s calm calm' within =
      Within-then _ _ s within (write-Quiet f s within calm) λ _ t w. write-Within g a t calm' w

  pub answer-Within :
      {A : Type 0} (f : Client → Client) (a : A) (s : Server)
      → IsQuiet f
      → Within fd name s
      → Ensures (modify_client fd f >>= λ _. pure a) s (λ _. Within fd name)
  answer-Within f a s quiet within =
      Within-then _ _ s within (modify_client-Quiet fd f s quiet (Live-Known within.live))
        λ _ t w. Ensures-pure a t w

  pub flag_mode-Within :
      (letter : ℕ) (ch : Channel) (st : ModeState) (s : Server)
      → Within fd name s
      → Ensures (flag_mode fd name letter ch st) s (λ _. Within fd name)
  unfolding flag_mode
  flag_mode-Within letter ch st s within =
      Ensures-when _ _ _ s (λ _. Ensures-pure _ s within)
        λ _. write-Within _ _ s (set_mode-IsCalm letter st.sign fd) within

  clear_key-Within :
      (st : ModeState) (s : Server)
      → Within fd name s
      → Ensures (clear_key fd name st) s (λ _. Within fd name)
  unfolding clear_key
  clear_key-Within st s within =
      Ensures-when _ _ _ s
        (λ _. writes-Within _ _ _ s (set_key-IsCalm []) (set_mode-IsCalm b'k' st.sign fd) within)
        λ _. Ensures-pure _ s within

  key_value-Within :
      (st : ModeState) (value : Option Text) (s : Server)
      → Within fd name s
      → Ensures (key_value fd name st value) s (λ _. Within fd name)
  key_value-Within st none s within = clear_key-Within st s within
  key_value-Within st (some value) s within =
      Ensures-when _ _ _ s
        (λ _. writes-Within _ _ _ s (set_key-IsCalm value) (set_mode-IsCalm b'k' st.sign fd) within)
        λ _. clear_key-Within st s within

  pub key_mode-Within :
      (cmd_vector : List Text) (ch : Channel) (st : ModeState) (s : Server)
      → Within fd name s
      → Ensures (key_mode fd name cmd_vector ch st) s (λ _. Within fd name)
  unfolding key_mode
  key_mode-Within cmd_vector ch st s within =
      Ensures-when _ _ _ s (λ _. Ensures-pure _ s within)
        λ _. key_value-Within st (get_elem? cmd_vector st.value_cnt) s within

  clear_limit-Within :
      (st : ModeState) (s : Server)
      → Within fd name s
      → Ensures (clear_limit fd name st) s (λ _. Within fd name)
  unfolding clear_limit
  clear_limit-Within st s within =
      Ensures-when _ _ _ s
        (λ _. writes-Within _ _ _ s (set_limit-IsCalm 0) (set_mode-IsCalm b'l' st.sign fd) within)
        λ _. Ensures-pure _ s within

  limit_number-Within :
      (value : Text) (st : ModeState) (limit : Option ℕ) (s : Server)
      → Within fd name s
      → Ensures (limit_number fd name value st limit) s (λ _. Within fd name)
  limit_number-Within value st none s within = Ensures-pure _ s within
  limit_number-Within value st (some limit) s within =
      Ensures-when _ _ _ s
        (λ _.
          writes-Within _ _ _ s (set_limit-IsCalm limit) (set_mode-IsCalm b'l' st.sign fd) within)
        λ _. clear_limit-Within st s within

  limit_value-Within :
      (st : ModeState) (value : Option Text) (s : Server)
      → Within fd name s
      → Ensures (limit_value fd name st value) s (λ _. Within fd name)
  limit_value-Within st none s within = clear_limit-Within st s within
  limit_value-Within st (some value) s within =
      limit_number-Within value st (limit_of value) s within

  pub limit_mode-Within :
      (cmd_vector : List Text) (ch : Channel) (st : ModeState) (s : Server)
      → Within fd name s
      → Ensures (limit_mode fd name cmd_vector ch st) s (λ _. Within fd name)
  unfolding limit_mode
  limit_mode-Within cmd_vector ch st s within =
      Ensures-when _ _ _ s (λ _. Ensures-pure _ s within)
        λ _. limit_value-Within st (get_elem? cmd_vector st.value_cnt) s within

  set_operator_mode-Within :
      (target : Client) (st : ModeState) (s : Server)
      → Within fd name s
      → Ensures (set_operator_mode fd name target st) s (λ _. Within fd name)
  unfolding set_operator_mode
  set_operator_mode-Within target st s within =
      write-Within _ _ s (set_mode-IsCalm b'o' st.sign target.fd) within

  pub operator_found-Within :
      (nickname : Text) (ch : Channel) (st : ModeState) (target : Option (ℤ × Client)) (s : Server)
      → Within fd name s
      → Ensures (operator_found fd name nickname ch st target) s (λ _. Within fd name)
  unfolding error_nosuchnick_401 error_usernotinchannel_441 error_chanoprivsneeded_482
  operator_found-Within nickname ch st none s within = answer-Within _ none s (λ d. refl) within
  operator_found-Within nickname ch st (some (j, target)) s within =
      at_client s fd _ (Live-Known within.live) λ client here.
        Ensures-when _ _ _ s (λ _. Ensures-pure none s within)
          λ _.
            Ensures-when _ _ _ s (λ _. answer-Within _ none s (λ d. refl) within)
              λ _.
                Ensures-when _ _ _ s (λ _. set_operator_mode-Within target st s within)
                  λ _.
                    Ensures-when _ _ _ s
                      (λ _.
                        Ensures-when _ _ _ s (λ _. set_operator_mode-Within target st s within)
                          λ _. answer-Within _ none s (λ d. refl) within)
                      λ _. Ensures-pure (some st) s within
