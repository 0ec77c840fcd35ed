-- ===== src/Command/Mode.antt =====
-- IRC_PROTOCOL_SERVER/command/Mode.cpp: the handler and its loop, with the letters in `Letters`
pub mod Letters
unfoldable pub use Letters.*
use irc_protocol_server.Base.{
  ℕ, ℤ, int_key, nat_key, Text, text, text_key, ◌==◌, Bool, ◌&&◌, ◌||◌, Option, none, some, List,
  [], ◌∷◌, ◌++◌, length, contains, if◌then◌else◌,
}
use irc_protocol_server.Server.{
  when◌act◌otherwise◌, M, pure, ◌>>=◌, ◌>>◌, client_at, modify_client, find_channel, deref_channel,
}
use irc_protocol_server.Client.{Client, append_recive_buf}
use irc_protocol_server.Channel.{Channel, diff_operator, get_mode}
use irc_protocol_server.Error.{
  crlf, error_nosuchchannel_403, error_needmoreparams_461, error_unknownmode_472,
  error_chanoprivsneeded_482,
}
use irc_protocol_server.Util.{int_to_string, prefix_servername, plus_message_all_channel}

-- The query `MODE <channel>`
unfoldable pub mode_reply : Bool → Channel → Text
unfolding get_mode
mode_reply is_operator channel =
    let params =
      if contains b'k' (get_mode channel)
      then (if is_operator then channel.key ++ text " " else text "<key> ")
      else [] in
    let limit = if contains b'l' (get_mode channel) then int_to_string channel.limit else [] in
    if params == [] && limit == []
    then text " :+" ++ get_mode channel
    else text " +" ++ (get_mode channel ++ (text " " ++ (params ++ (text ":" ++ limit))))

unfoldable pub show_mode : ℤ → Text → Channel → M (Unit {0})
show_mode fd name channel = modify_client fd (λ client.
    append_recive_buf
      (text ":"
        ++ (prefix_servername
            ++ (text " 324 "
                ++ (client.nick_name
                    ++ (text " "
                        ++ (name ++ (mode_reply (diff_operator fd channel) channel ++ crlf)))))))
      client)

-- One round of the loop
unfoldable pub mode_letter : ℤ → Text → List Text → ℕ → ModeState → M (Option ModeState)
mode_letter fd name cmd_vector letter st =
    when letter == b'+' || letter == b'-' act pure (some (record st { sign = letter })) otherwise do
      channel ← find_channel name >>= deref_channel
      when letter == b'i' || letter == b't'
          act flag_mode fd name letter channel st
          otherwise when letter == b'k'
          act key_mode fd name cmd_vector channel st
          otherwise when letter == b'l'
          act limit_mode fd name cmd_vector channel st
          otherwise when letter == b'o'
          act operator_mode fd name cmd_vector channel st
          otherwise (do modify_client fd (error_unknownmode_472 letter); pure (some st))

-- What follows a round: nothing after the handler's `return`.
abbrev pub after_letter :
    Option ModeState → (ModeState → M (Option ModeState)) → M (Option ModeState)
after_letter none rest = pure none
after_letter (some st) rest = rest st

unfoldable pub mode_letters : ℤ → Text → List Text → Text → ModeState → M (Option ModeState)
mode_letters fd name cmd_vector [] st = pure (some st)
mode_letters fd name cmd_vector (letter ∷ letters) st = do
  next ← mode_letter fd name cmd_vector letter st
  after_letter next (λ st'. mode_letters fd name cmd_vector letters st')

abbrev pub start : ModeState
start = record { sign = 0; value_cnt = 3; message = []; plus_message = []; values = [] }

unfoldable pub spaced_values : List Text → Text
spaced_values [] = []
spaced_values (value ∷ values) =
    (if length value == 0 then [] else b' ' ∷ value) ++ spaced_values values

-- The broadcast behind the loop
abbrev pub broadcast_mode : ℤ → Text → Option ModeState → M (Unit {0})
broadcast_mode fd name none = pure tt
broadcast_mode fd name (some st) = do
  channel ← find_channel name >>= deref_channel
  let message = st.message ++ (if diff_operator fd channel then spaced_values st.values else [])
  when length message == 0
      act pure tt
      otherwise plus_message_all_channel fd name (text "MODE") message st.plus_message

unfoldable pub set_modes : ℤ → Text → List Text → Text → M (Unit {0})
set_modes fd name cmd_vector mode_argv = do
  result ← mode_letters fd name cmd_vector mode_argv start
  broadcast_mode fd name result

abbrev pub mode_words : ℤ → Text → List Text → Channel → List Text → M (Unit {0})
mode_words fd name cmd_vector channel [] = show_mode fd name channel
mode_words fd name cmd_vector channel (mode_argv ∷ _) =
    when length mode_argv == 1
    act pure tt
    otherwise when diff_operator fd channel
    act set_modes fd name cmd_vector mode_argv
    otherwise modify_client fd (error_chanoprivsneeded_482 name)

abbrev pub mode_found : ℤ → Text → List Text → List Text → Option Channel → M (Unit {0})
mode_found fd name cmd_vector words none = modify_client fd (error_nosuchchannel_403 name)
mode_found fd name cmd_vector words (some channel) = mode_words fd name cmd_vector channel words

unfoldable pub mode : ℤ → List Text → M (Unit {0})
mode fd (verb ∷ name ∷ words) = do
  client ← client_at fd
  found ← find_channel name
  when client.nick_name == name
      act pure tt
      otherwise mode_found fd name (verb ∷ name ∷ words) words found
mode fd _ = modify_client fd error_needmoreparams_461
