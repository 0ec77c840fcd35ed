-- ===== src/Command/Join.antt =====
-- IRC_PROTOCOL_SERVER/command/Join.cpp. `keyIter` is a position in `joinKeyArgv`. Comparing and
-- stepping it never shows but in a later read, and a read outside the vector is undefined behaviour.
-- It is not set where several channels come with no key; there it stands at 0, and the code never
-- reads it.
use irc_protocol_server.Base.{
  ℕ, ◌+◌, ℤ, int_key, nat_key, Text, text, text_key, ◌==◌, Bool, true, false, not, ◌&&◌, ◌||◌,
  Option, none, some, List, [], ◌∷◌, length, get_elem?, contains, leb, ltb, if◌then◌else◌,
}
use irc_protocol_server.Server.{
  when◌act◌otherwise◌, M, pure, undefined_behaviour, ◌>>=◌, ◌>>◌, client_at, modify_client,
  find_channel, modify_channel, append_new_channel,
}
use irc_protocol_server.Client.{append_channel_list}
use irc_protocol_server.Channel.{
  Channel, diff_client_in_channel, diff_mode, diff_key, diff_invite, append_fd_list_client,
}
use irc_protocol_server.Error.{
  error_nosuchchannel_403, error_useronchannel_443, error_needmoreparams_461,
  error_channelisfull_471, error_inviteonlychan_473, error_badchannelkey_475,
}
use irc_protocol_server.Util.{split, head_is, message_all_channel, topic_message, name_list_msg}

-- What the guards say
pub data Admission : Type 0 where
  admitted already_on_channel no_keys bad_key bad_iterator invite_only full : Admission

unfoldable pub check_limit : Channel → Admission
check_limit channel =
    if diff_mode b'l' channel && leb channel.limit (length channel.client_fd_list)
    then full
    else admitted

unfoldable pub check_invite : ℤ → Channel → Admission
unfolding check_limit
check_invite fd channel =
    if diff_mode b'i' channel && not (diff_invite fd channel)
    then invite_only
    else check_limit channel

abbrev compare_key : ℤ → Channel → Option Text → Admission
compare_key fd channel none = bad_iterator
compare_key fd channel (some key) =
    if diff_key key channel then check_invite fd channel else bad_key

-- `size` is that of `cmdVector`.
unfoldable pub check_key : ℤ → ℕ → List Text → ℕ → Channel → Admission
unfolding check_invite
check_key fd size keys at channel =
    if diff_mode b'k' channel
    then (if length keys == 0
        then no_keys
        else if leb size 2 || at == length keys
        then bad_key
        else compare_key fd channel (get_elem? keys at))
    else check_invite fd channel

unfoldable pub admission : ℤ → ℕ → List Text → ℕ → Channel → Admission
unfolding check_key
admission fd size keys at channel =
    if diff_client_in_channel fd channel
    then already_on_channel
    else check_key fd size keys at channel

unfoldable pub enter : ℤ → Text → Text → M (Unit {0})
enter fd name channel_name = do
  modify_client fd (append_channel_list channel_name)
  modify_channel name (append_fd_list_client fd)

unfoldable pub found_channel : ℤ → Text → M (Unit {0})
found_channel fd name = do
  append_new_channel fd name
  modify_channel name (append_fd_list_client fd)
  modify_client fd (append_channel_list name)

-- What a verdict leads to; false is the handler's `return`.
unfoldable pub act_on : Admission → ℤ → Text → Channel → M Bool
act_on admitted fd name channel = do
  enter fd name channel.channel_name
  message_all_channel fd channel.channel_name (text "JOIN") []
  topic_message fd channel.channel_name
  name_list_msg fd name
  pure true
act_on already_on_channel fd name channel = do
  client ← client_at fd
  modify_client fd (error_useronchannel_443 client.nick_name channel.channel_name)
  pure true
act_on no_keys fd name channel = do modify_client fd (error_badchannelkey_475 name); pure false
act_on bad_key fd name channel = do modify_client fd (error_badchannelkey_475 name); pure true
act_on bad_iterator fd name channel = undefined_behaviour
act_on invite_only fd name channel = do modify_client fd (error_inviteonlychan_473 name); pure true
act_on full fd name channel = do modify_client fd (error_channelisfull_471 name); pure true

abbrev pub is_channel_name : Text → Bool
is_channel_name name = head_is b'#' name || head_is b'&' name

abbrev pub join_found : ℤ → ℕ → List Text → ℕ → Text → Option Channel → M Bool
join_found fd size keys at name none = do
  found_channel fd name
  message_all_channel fd name (text "JOIN") []
  name_list_msg fd name
  pure true
join_found fd size keys at name (some channel) =
    act_on (admission fd size keys at channel) fd name channel

-- One round of the loop
unfoldable pub join_channel : ℤ → ℕ → List Text → ℕ → Text → M Bool
join_channel fd size keys at name =
    when is_channel_name name
    act (do found ← find_channel name; join_found fd size keys at name found)
    otherwise (do modify_client fd (error_nosuchchannel_403 name); pure true)

-- Where `keyIter` stands after a round
unfoldable pub next_key : ℕ → List Text → ℕ → Text → ℕ
next_key size keys at name =
    let inside = not (at == length keys) in
    if (if is_channel_name name then ltb 2 size || inside else ltb 2 size && inside)
    then at + 1
    else at

unfoldable pub join_channels : ℤ → ℕ → List Text → ℕ → List Text → M (Unit {0})
join_channels fd size keys at [] = pure tt
join_channels fd size keys at (name ∷ names) = do
  go_on ← join_channel fd size keys at name
  when go_on act join_channels fd size keys (next_key size keys at name) names otherwise pure tt

-- `joinChannelArgv`
unfoldable pub join_channel_argv : Text → List Text
join_channel_argv names = if contains b',' names then split names b',' else names ∷ []

-- `joinKeyArgv`, from the number of channels and the words behind their names
unfoldable pub join_key_argv : ℕ → List Text → List Text
join_key_argv count [] = if ltb 1 count then [] else [] ∷ []
join_key_argv count (keys ∷ rest) =
    if ltb 1 count then (if keys == [] then [] ∷ [] else split keys b',') else keys ∷ []

unfoldable pub join : ℤ → List Text → M (Unit {0})
join fd (verb ∷ names ∷ words) =
    let channels = join_channel_argv names in
    join_channels fd (2 + length words) (join_key_argv (length channels) words) 0 channels
join fd _ = modify_client fd error_needmoreparams_461
