-- ===== src/Client.antt =====
-- IRC_PROTOCOL_SERVER/src/Client.cpp: one connection as the server keeps it.
use irc_protocol_server.Base.{
  negsuc, ℤ, Text, text, text_key, Bool, false, ◌&&◌, List, [], ◌++◌, contains, erase, push_back,
}

-- The private fields of `Client`.
pub record Client : Type 0 where
  pub fd : ℤ
  pub channel_list : List Text
  pub recive_buf : Text
  pub nick_name : Text
  pub user_name : Text
  pub real_name : Text
  pub host_name : Text
  pub server_name : Text
  pub is_regi_pass : Bool
  pub is_regi_nick : Bool
  pub is_regi_user : Bool
  pub eof_buffer : Text
  pub eof_flag : Bool

-- The state of a client built for `fd`. The copy constructor that `insert` runs leaves out
-- `_eofBuffer`, which stays empty, and `_eofFlag`, whose value `flag` is then indeterminate.
unfoldable pub new_client : ℤ → Bool → Client
new_client fd flag = record {
  fd = fd;
  channel_list = [];
  recive_buf = [];
  nick_name = text "*";
  user_name = [];
  real_name = [];
  host_name = [];
  server_name = [];
  is_regi_pass = false;
  is_regi_nick = false;
  is_regi_user = false;
  eof_buffer = [];
  eof_flag = flag;
}

-- `Client()`, which `operator[]` of the map runs on a missing key.
unfoldable pub default_client : Bool → Client
unfolding new_client
default_client flag = new_client (negsuc 0) flag

unfoldable pub get_is_regist : Client → Bool
get_is_regist c = c.is_regi_pass && (c.is_regi_nick && c.is_regi_user)

unfoldable pub set_regi_pass : Bool → Client → Client
set_regi_pass status c = record c { is_regi_pass = status }

unfoldable pub set_regi_nick : Bool → Client → Client
set_regi_nick status c = record c { is_regi_nick = status }

unfoldable pub set_regi_user : Bool → Client → Client
set_regi_user status c = record c { is_regi_user = status }

unfoldable pub set_nickname : Text → Client → Client
set_nickname name c = record c { nick_name = name }

unfoldable pub set_userinfo : Text → Text → Text → Text → Client → Client
set_userinfo user host server real c = record c {
  user_name = user;
  host_name = host;
  server_name = server;
  real_name = real;
}

unfoldable pub append_recive_buf : Text → Client → Client
append_recive_buf input c = record c { recive_buf = c.recive_buf ++ input }

unfoldable pub clear_recive_buf : Client → Client
clear_recive_buf c = record c { recive_buf = [] }

unfoldable pub append_channel_list : Text → Client → Client
append_channel_list name c = record c { channel_list = push_back c.channel_list name }

-- `findChannel(…) != end()`
unfoldable pub find_channel : Text → Client → Bool
find_channel name c = contains name c.channel_list

unfoldable pub delete_channel : Text → Client → Client
delete_channel name c = record c { channel_list = erase name c.channel_list }

unfoldable pub set_eof_flag : Bool → Client → Client
set_eof_flag flag c = record c { eof_flag = flag }

-- `getEofBuffer() << input`
unfoldable pub write_eof_buffer : Text → Client → Client
write_eof_buffer input c = record c { eof_buffer = c.eof_buffer ++ input }

-- `getEofBuffer().str("")`
unfoldable pub clear_eof_buffer : Client → Client
clear_eof_buffer c = record c { eof_buffer = [] }

unfoldable pub reset_client : Client → Client
reset_client c = record c {
  is_regi_pass = false;
  is_regi_nick = false;
  is_regi_user = false;
  channel_list = [];
  recive_buf = [];
  fd = negsuc 0;
  nick_name = [];
  user_name = [];
  host_name = [];
  server_name = [];
  real_name = [];
}
