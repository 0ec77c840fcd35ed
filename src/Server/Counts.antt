-- ===== src/Server/Counts.antt =====
-- The writes that move a client into a channel or out of one, by their effect on the two counts
use irc_protocol_server.Base.{
  ℕ, ◌+◌, ◌-◌, ℤ, int_key, Text, text_key, ◌==◌, ◌≡◌, inl, inr, some, find, update, find-update,
  count-push_back, count-erase, if◌then◌else◌, arith, Option-cases,
}
use irc_protocol_server.Client.{Client, append_channel_list, delete_channel}
use irc_protocol_server.Channel.{Channel, append_fd_list_client, remove_fd_list_client}
use irc_protocol_server.Server.State.{Server}
use irc_protocol_server.Server.Links.{shape_at, roll_at, joined, member, Known}

abbrev pub put_client : ℤ → (Client → Client) → Server → Server
put_client fd f s = record s { client_list = update fd f s.client_list }

abbrev pub put_channel : Text → (Channel → Channel) → Server → Server
put_channel name f s = record s { channel_list = update name f s.channel_list }

-- A client that was there is there, as it was written.
pub written-found :
    (fd : ℤ) (f : Client → Client) (s : Server) (c : Client)
    → find fd s.client_list ≡ some c
    → find fd (put_client fd f s).client_list ≡ some (f c)
written-found fd f s c here =
    ground (arith, find-update fd fd f s.client_list, here, int_key.beq_iff fd fd)

-- 1 at the pair itself
abbrev pub hit : ℤ → Text → ℤ → Text → ℕ
hit fd name j n = if fd == j then (if name == n then 1 else 0) else 0

module _ (s : Server) (fd : ℤ) (name : Text) where
  pub joined-append :
      Known s fd
      → (j : ℤ) (n : Text)
      → joined (put_client fd (append_channel_list name) s) j n ≡ joined s j n + hit fd name j n
  unfolding joined shape_at append_channel_list
  joined-append (c, e) j n = ground (
    arith,
    find-update j fd (append_channel_list name) s.client_list,
    int_key.beq_iff fd j,
    Option-cases (find j s.client_list),
    count-push_back n name c.channel_list,
  )

  pub joined-delete :
      (j : ℤ) (n : Text)
      → joined (put_client fd (delete_channel name) s) j n ≡ joined s j n - hit fd name j n
  unfolding joined shape_at delete_channel
  joined-delete j n = elim (Option-cases (find j s.client_list)) [
    | inl e ↦ ground (arith, find-update j fd (delete_channel name) s.client_list)
    | inr (c, e) ↦ ground (
      arith,
      find-update j fd (delete_channel name) s.client_list,
      count-erase n name c.channel_list,
    )
  ]

  pub member-append :
      (ch : Channel)
      → find name s.channel_list ≡ some ch
      → (j : ℤ) (n : Text)
      → member (put_channel name (append_fd_list_client fd) s) j n ≡ member s j n + hit fd name j n
  unfolding member roll_at append_fd_list_client
  member-append ch e j n = ground (
    arith,
    find-update n name (append_fd_list_client fd) s.channel_list,
    text_key.beq_iff name n,
    Option-cases (find n s.channel_list),
    count-push_back j fd ch.client_fd_list,
  )

  pub member-remove :
      (j : ℤ) (n : Text)
      → member (put_channel name (remove_fd_list_client fd) s) j n ≡ member s j n - hit fd name j n
  unfolding member roll_at remove_fd_list_client
  member-remove j n = elim (Option-cases (find n s.channel_list)) [
    | inl e ↦ ground (arith, find-update n name (remove_fd_list_client fd) s.channel_list)
    | inr (c, e) ↦ ground (
      arith,
      find-update n name (remove_fd_list_client fd) s.channel_list,
      count-erase j fd c.client_fd_list,
    )
  ]
