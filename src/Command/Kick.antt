-- ===== src/Command/Kick.antt =====
-- IRC_PROTOCOL_SERVER/command/Kick.cpp
use irc_protocol_server.Base.{
  ℤ, int_key, nat_key, negsuc, Text, text, text_key, ◌==◌, Bool, true, false, Option, none, some,
  List, [], ◌∷◌, ◌++◌, drop,
}
use irc_protocol_server.Server.{
  when◌act◌otherwise◌, M, pure, undefined_behaviour, ◌>>=◌, ◌>>◌, client_at, modify_client,
  find_channel, modify_channel, find_client,
}
use irc_protocol_server.Client.{Client, delete_channel}
use irc_protocol_server.Channel.{
  Channel, diff_operator, diff_client_in_channel, remove_fd_list_client, remove_operator_fd,
}
use irc_protocol_server.Error.{
  error_nosuchnick_401, error_nosuchchannel_403, error_usernotinchannel_441,
  error_needmoreparams_461, error_chanoprivsneeded_482,
}
use irc_protocol_server.Util.{split, message_all_channel}

-- The first loop: true if some channel exists whose operator `fd` is not. Its reply is then written.
unfoldable pub lacks_privilege : ℤ → List Text → M Bool
lacks_privilege fd [] = pure false
lacks_privilege fd (name ∷ names) = do
  found ← find_channel name
  elim found [
    | none ↦ lacks_privilege fd names
    | some channel ↦
        when diff_operator fd channel
        act lacks_privilege fd names
        otherwise (do modify_client fd (error_chanoprivsneeded_482 name); pure true)
  ]

abbrev pub kick_message : Text → List Text → Text
kick_message nickname [] = nickname
kick_message nickname (word ∷ words) = nickname ++ (text " " ++ word)

unfoldable pub expel : ℤ → Text → Text → ℤ → Client → M (Unit {0})
expel fd name message target client = do
  message_all_channel fd name (text "KICK") message
  modify_channel name (remove_fd_list_client client.fd)
  modify_channel name (remove_operator_fd client.fd)
  modify_client target (delete_channel name)

-- The rest of a round, where the channel exists; false is the handler's `return`.
abbrev pub kick_found : ℤ → Text → Text → List Text → Channel → Option (ℤ × Client) → M Bool
kick_found fd name nickname words channel none = do
  modify_client fd (error_nosuchnick_401 nickname)
  pure false
kick_found fd name nickname words channel (some (target, client)) =
    when client.fd == negsuc 0
    act (do modify_client fd (error_nosuchnick_401 nickname); pure false)
    otherwise do
      operator ← client_at fd
      when client.nick_name == operator.nick_name
          act pure false
          otherwise when diff_client_in_channel client.fd channel
          act (do expel fd name (kick_message nickname words) target client; pure true)
          otherwise (do modify_client fd (error_usernotinchannel_441 nickname name); pure true)

-- One round. `nicks` is what `nickIter` has before it: reading it at the end is undefined behaviour.
unfoldable pub kick_channel : ℤ → Text → List Text → List Text → M Bool
kick_channel fd name nicks words = do
  found ← find_channel name
  elim found [
    | none ↦ (do modify_client fd (error_nosuchchannel_403 name); pure true)
    | some channel ↦ elim nicks [
      | [] ↦ undefined_behaviour
      | nickname ∷ _ ↦ (do
        target ← find_client nickname
        kick_found fd name nickname words channel target)
    ]
  ]

unfoldable pub kick_channels : ℤ → List Text → List Text → List Text → M (Unit {0})
kick_channels fd [] nicks words = pure tt
kick_channels fd (name ∷ names) nicks words = do
  go_on ← kick_channel fd name nicks words
  when go_on act kick_channels fd names (drop 1 nicks) words otherwise pure tt

unfoldable pub kick : ℤ → List Text → M (Unit {0})
kick fd (verb ∷ names ∷ nicks ∷ words) = do
  refused ← lacks_privilege fd (split names b',')
  when refused act pure tt otherwise kick_channels fd (split names b',') (split nicks b',') words
kick fd _ = modify_client fd error_needmoreparams_461
