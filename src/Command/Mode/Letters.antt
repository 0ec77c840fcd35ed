-- ===== src/Command/Mode/Letters.antt =====
-- IRC_PROTOCOL_SERVER/command/Mode.cpp: what the mode letters do
use irc_protocol_server.Base.{
  ℕ, ◌+◌, ℤ, int_key, nat_key, Text, text_key, ◌==◌, not, ◌&&◌, ◌||◌, Option, none, some, List, [],
  ◌∷◌, ◌++◌, length, get_elem?, if◌then◌else◌, push_back,
}
use irc_protocol_server.Server.{
  when◌act◌otherwise◌, M, pure, ◌>>=◌, ◌>>◌, client_at, modify_client, modify_channel, find_client,
}
use irc_protocol_server.Client.{Client}
use irc_protocol_server.Channel.{
  Channel, diff_operator, diff_client_in_channel, diff_mode, set_mode, set_key, set_limit,
}
use irc_protocol_server.Error.{
  error_nosuchnick_401, error_usernotinchannel_441, error_chanoprivsneeded_482,
}
use irc_protocol_server.Util.{c_str, all_digits, atoi}

-- The variables of the loop
pub record ModeState : Type 0 where
  pub sign : ℕ
  pub value_cnt : ℕ
  pub message : Text
  pub plus_message : Text
  pub values : List Text

-- A round that set a mode notes its letter; the sign is noted for the first one only.
unfoldable pub note_set : ℕ → ModeState → ModeState
note_set letter st = record st {
  message = (if length st.message == 0 then st.sign ∷ [] else st.message) ++ (letter ∷ []);
}

unfoldable pub take_value : Text → ModeState → ModeState
take_value value st = record st { value_cnt = st.value_cnt + 1; values = push_back st.values value }

-- 'i' and 't'
unfoldable pub flag_mode : ℤ → Text → ℕ → Channel → ModeState → M (Option ModeState)
flag_mode fd name letter channel st =
    when st.sign == b'+' && diff_mode letter channel
      || st.sign == b'-' && not (diff_mode letter channel)
    act pure (some st)
    otherwise do modify_channel name (set_mode letter st.sign fd); pure (some (note_set letter st))

unfoldable pub clear_key : ℤ → Text → ModeState → M (Option ModeState)
clear_key fd name st =
    when st.sign == b'-'
    act (do
      modify_channel name (set_key [])
      modify_channel name (set_mode b'k' st.sign fd)
      pure (some (note_set b'k' st)))
    otherwise pure (some st)

abbrev pub key_value : ℤ → Text → ModeState → Option Text → M (Option ModeState)
key_value fd name st none = clear_key fd name st
key_value fd name st (some value) =
    when st.sign == b'+'
    act (do
      modify_channel name (set_key value)
      modify_channel name (set_mode b'k' st.sign fd)
      pure (some (note_set b'k' (take_value value st))))
    otherwise clear_key fd name st

unfoldable pub key_mode : ℤ → Text → List Text → Channel → ModeState → M (Option ModeState)
key_mode fd name cmd_vector channel st =
    when st.sign == b'-' && not (diff_mode b'k' channel)
    act pure (some st)
    otherwise key_value fd name st (get_elem? cmd_vector st.value_cnt)

unfoldable pub clear_limit : ℤ → Text → ModeState → M (Option ModeState)
clear_limit fd name st =
    when st.sign == b'-'
    act (do
      modify_channel name (set_limit 0)
      modify_channel name (set_mode b'l' st.sign fd)
      pure (some (note_set b'l' st)))
    otherwise pure (some st)

-- A value that is no number, or a negative one, is passed over.
unfoldable pub limit_of : Text → Option ℕ
unfolding c_str all_digits atoi
limit_of value = if all_digits (c_str value) then atoi (c_str value) else none

abbrev pub limit_number : ℤ → Text → Text → ModeState → Option ℕ → M (Option ModeState)
limit_number fd name value st none = pure (some (record st { value_cnt = st.value_cnt + 1 }))
limit_number fd name value st (some limit) =
    when st.sign == b'+'
    act (do
      modify_channel name (set_limit limit)
      modify_channel name (set_mode b'l' st.sign fd)
      pure (some (note_set b'l' (take_value value st))))
    otherwise clear_limit fd name st

abbrev pub limit_value : ℤ → Text → ModeState → Option Text → M (Option ModeState)
limit_value fd name st none = clear_limit fd name st
limit_value fd name st (some value) = limit_number fd name value st (limit_of value)

unfoldable pub limit_mode : ℤ → Text → List Text → Channel → ModeState → M (Option ModeState)
limit_mode fd name cmd_vector channel st =
    when st.sign == b'-' && not (diff_mode b'l' channel)
    act pure (some st)
    otherwise limit_value fd name st (get_elem? cmd_vector st.value_cnt)

unfoldable pub set_operator_mode : ℤ → Text → Client → ModeState → M (Option ModeState)
set_operator_mode fd name target st = do
  modify_channel name (set_mode b'o' st.sign target.fd)
  pure (
      some (
        note_set b'o'
          (record st { value_cnt = st.value_cnt + 1; plus_message = target.nick_name })))

-- `none` is the handler's `return`.
abbrev pub operator_found :
    ℤ → Text → Text → Channel → ModeState → Option (ℤ × Client) → M (Option ModeState)
operator_found fd name nickname channel st none = do
  modify_client fd (error_nosuchnick_401 nickname)
  pure none
operator_found fd name nickname channel st (some (_, target)) = do
  client ← client_at fd
  when client.nick_name == target.nick_name
      act pure none
      otherwise when not (diff_client_in_channel target.fd channel)
      act (do modify_client fd (error_usernotinchannel_441 nickname name); pure none)
      otherwise when st.sign == b'+'
      act set_operator_mode fd name target st
      otherwise when st.sign == b'-'
      act (when diff_operator fd channel
          act set_operator_mode fd name target st
          otherwise (do modify_client fd (error_chanoprivsneeded_482 name); pure none))
      otherwise pure (some st)

abbrev pub operator_value : ℤ → Text → Channel → ModeState → Option Text → M (Option ModeState)
operator_value fd name channel st none = pure (some st)
operator_value fd name channel st (some nickname) = do
  target ← find_client nickname
  operator_found fd name nickname channel st target

unfoldable pub operator_mode : ℤ → Text → List Text → Channel → ModeState → M (Option ModeState)
operator_mode fd name cmd_vector channel st =
    operator_value fd name channel st (get_elem? cmd_vector st.value_cnt)
