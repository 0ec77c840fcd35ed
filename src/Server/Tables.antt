-- ===== src/Server/Tables.antt =====
-- Lookups and writes in the two tables. `find(…)->second` on a missing key is undefined behaviour.
use irc_protocol_server.Base.{ℕ, nat_key, List}
use irc_protocol_server.Server.State.{Change, evfilt_read, evfilt_write, indeterminate}
use irc_protocol_server.Base.{
  ℤ, int_key, Text, text_key, ◌==◌, false, Option, none, some, [], ◌∷◌, Map, find, insert,
  erase_key, update, push_back, if◌then◌else◌,
}
use irc_protocol_server.Client.{Client, default_client, reset_client}
use irc_protocol_server.Channel.{
  Channel, new_channel, remove_fd_list_client, remove_operator_fd, remove_invite_fd,
}
use irc_protocol_server.Server.State.{M, pure, undefined_behaviour, ◌>>=◌, gets, modify, for_each}

-- The first entry, by descriptor, with the nickname.
unfoldable pub with_nickname : Text → Map ℤ Client → Option (ℤ × Client)
with_nickname name [] = none
with_nickname name ((fd, c) ∷ m) =
    let rest = with_nickname name m in if c.nick_name == name then some (fd, c) else rest

-- `Server::findClient`; `none` is the end iterator.
unfoldable pub find_client : Text → M (Option (ℤ × Client))
unfolding with_nickname gets
find_client name = gets λ s. with_nickname name s.client_list

-- `clientList.find(fd)`
unfoldable pub lookup_client : ℤ → M (Option Client)
unfolding gets
lookup_client fd = gets λ s. find fd s.client_list

abbrev pub deref_client : Option Client → M Client
deref_client none = undefined_behaviour
deref_client (some c) = pure c

-- `clientList.find(fd)->second`, read
unfoldable pub client_at : ℤ → M Client
unfolding lookup_client ◌>>=◌
client_at fd = lookup_client fd >>= deref_client

-- `clientList.find(fd)->second`, written to
unfoldable pub modify_client : ℤ → (Client → Client) → M (Unit {0})
unfolding client_at modify
modify_client fd f =
    client_at fd >>= λ _. modify λ s. record s { client_list = update fd f s.client_list }

-- `clientList[fd]`: a missing key gets a default client first. Its flag is overwritten by all that
-- use it.
unfoldable pub index_client : ℤ → M Client
unfolding client_at modify
index_client fd =
    modify (λ s. record s { client_list = insert fd (default_client false) s.client_list }) >>= λ _.
    client_at fd

-- `Server::findChannel`; `none` is NULL.
unfoldable pub find_channel : Text → M (Option Channel)
unfolding gets
find_channel name = gets λ s. find name s.channel_list

abbrev pub deref_channel : Option Channel → M Channel
deref_channel none = undefined_behaviour
deref_channel (some c) = pure c

-- A write through a `Channel*` that was found under this name.
unfoldable pub modify_channel : Text → (Channel → Channel) → M (Unit {0})
unfolding find_channel modify ◌>>=◌
modify_channel name f = find_channel name >>= deref_channel >>= λ _.
    modify λ s. record s { channel_list = update name f s.channel_list }

-- `Server::appendNewChannel`
unfoldable pub append_new_channel : ℤ → Text → M (Unit {0})
unfolding modify
append_new_channel fd name =
    modify λ s. record s { channel_list = insert name (new_channel name fd) s.channel_list }

-- `Server::removeChannel`, with the `delete` that follows each call of it
unfoldable pub remove_channel : Text → M (Unit {0})
unfolding modify
remove_channel name = modify λ s. record s { channel_list = erase_key name s.channel_list }

-- `send(fd, getReciveBuf())`
unfoldable pub send_buffer : ℤ → M (Unit {0})
unfolding client_at modify
send_buffer fd =
    client_at fd >>= λ c. modify λ s. record s { sent = push_back s.sent (fd, c.recive_buf) }

-- `resetClient`, `erase` and `close`
unfoldable pub dismiss : ℤ → M (Unit {0})
unfolding modify_client
dismiss fd = modify_client fd reset_client >>= λ _.
    modify
      λ s. record s { client_list = erase_key fd s.client_list; closed = push_back s.closed fd }

-- `Server::disconnectClient`: no channel is deleted. `operator[]` gives NULL for a channel that is
-- not in the table.
unfoldable pub disconnect_channel : ℤ → Text → M (Unit {0})
unfolding modify_channel
disconnect_channel fd name = modify_channel name (remove_fd_list_client fd) >>= λ _.
    modify_channel name (remove_operator_fd fd) >>= λ _. modify_channel name (remove_invite_fd fd)

unfoldable pub disconnect_client : ℤ → M (Unit {0})
unfolding index_client disconnect_channel for_each
disconnect_client fd = index_client fd >>= λ client.
    for_each client.channel_list (disconnect_channel fd) >>= λ _.
    modify
      λ s. record s { client_list = erase_key fd s.client_list; closed = push_back s.closed fd }

-- `Server::changeEvent`; READ is 0 and WRITE is 1.
unfoldable pub change_event : ℤ → ℕ → List Change → List Change
change_event ident flag changes = push_back changes (record {
  ident = ident;
  filter = if flag == 0 then evfilt_read else if flag == 1 then evfilt_write else indeterminate;
})
