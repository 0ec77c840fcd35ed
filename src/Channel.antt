-- ===== src/Channel.antt =====
-- IRC_PROTOCOL_SERVER/src/Channel.cpp: a channel, its members, operators and invited descriptors,
-- and its modes.
use irc_protocol_server.Base.{
  ℕ, ℤ, int_key, nat_key, Text, text, text_key, ◌==◌, Bool, true, false, List, [], ◌∷◌, ◌++◌,
  contains, erase, push_back, push_new, if◌then◌else◌,
}

pub record Channel : Type 0 where
  pub channel_name : Text
  pub operator_fd_list : List ℤ
  pub client_fd_list : List ℤ
  pub invite_fd_list : List ℤ
  pub topic : Text
  pub key : Text
  pub invite_status : Bool
  pub topic_status : Bool
  pub key_status : Bool
  pub limit_status : Bool
  pub limit : ℕ

-- The client that creates a channel is its operator.
unfoldable pub new_channel : Text → ℤ → Channel
new_channel name fd = record {
  channel_name = name;
  operator_fd_list = fd ∷ [];
  client_fd_list = [];
  invite_fd_list = [];
  topic = [];
  key = [];
  invite_status = false;
  topic_status = false;
  key_status = false;
  limit_status = false;
  limit = 0;
}

unfoldable pub get_mode : Channel → Text
get_mode c =
    (if c.topic_status then text "t" else [])
    ++ ((if c.invite_status then text "i" else [])
        ++ ((if c.limit_status then text "l" else []) ++ (if c.key_status then text "k" else [])))

unfoldable pub add_operator_fd : ℤ → Channel → Channel
add_operator_fd fd c = record c { operator_fd_list = push_new fd c.operator_fd_list }

unfoldable pub remove_operator_fd : ℤ → Channel → Channel
remove_operator_fd fd c = record c { operator_fd_list = erase fd c.operator_fd_list }

unfoldable pub set_operator : ℤ → ℕ → Channel → Channel
unfolding add_operator_fd remove_operator_fd
set_operator fd sign c =
    if sign == b'+'
    then add_operator_fd fd c
    else if sign == b'-'
    then remove_operator_fd fd c
    else c

-- What `setMode` makes of a flag: '+' sets it, '-' clears it, and any other sign leaves it.
abbrev pub flag_after : ℕ → Bool → Bool
flag_after sign old = if sign == b'+' then true else if sign == b'-' then false else old

unfoldable pub set_mode : ℕ → ℕ → ℤ → Channel → Channel
unfolding set_operator
set_mode mode sign fd c =
    if mode == b'i'
    then record c { invite_status = flag_after sign c.invite_status }
    else if mode == b't'
    then record c { topic_status = flag_after sign c.topic_status }
    else if mode == b'l'
    then record c { limit_status = flag_after sign c.limit_status }
    else if mode == b'k'
    then record c { key_status = flag_after sign c.key_status }
    else if mode == b'o'
    then set_operator fd sign c
    else c

unfoldable pub set_limit : ℕ → Channel → Channel
set_limit limit c = record c { limit = limit }

unfoldable pub set_topic : Text → Channel → Channel
set_topic topic c = record c { topic = topic }

unfoldable pub set_key : Text → Channel → Channel
set_key key c = record c { key = key }

unfoldable pub append_fd_list_client : ℤ → Channel → Channel
append_fd_list_client fd c = record c { client_fd_list = push_back c.client_fd_list fd }

unfoldable pub remove_fd_list_client : ℤ → Channel → Channel
remove_fd_list_client fd c = record c { client_fd_list = erase fd c.client_fd_list }

unfoldable pub remove_invite_fd : ℤ → Channel → Channel
remove_invite_fd fd c = record c { invite_fd_list = erase fd c.invite_fd_list }

unfoldable pub append_fd_list_invite : ℤ → Channel → Channel
append_fd_list_invite fd c = record c { invite_fd_list = push_new fd c.invite_fd_list }

unfoldable pub diff_invite : ℤ → Channel → Bool
diff_invite fd c = contains fd c.invite_fd_list

unfoldable pub diff_key : Text → Channel → Bool
diff_key key c = c.key == key

unfoldable pub diff_operator : ℤ → Channel → Bool
diff_operator fd c = contains fd c.operator_fd_list

unfoldable pub diff_mode : ℕ → Channel → Bool
diff_mode mode c =
    if mode == b'i'
    then c.invite_status
    else if mode == b't'
    then c.topic_status
    else if mode == b'l'
    then c.limit_status
    else if mode == b'k'
    then c.key_status
    else false

unfoldable pub diff_client_in_channel : ℤ → Channel → Bool
diff_client_in_channel fd c = contains fd c.client_fd_list
