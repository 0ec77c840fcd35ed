-- ===== src/Util/Quiet.antt =====
-- The broadcasts of IRC_PROTOCOL_SERVER/src/Util.cpp by their effect on the invariant
use irc_protocol_server.Base.{
  ℤ, int_key, nat_key, Text, text_key, ◌≡◌, ◌≢◌, refl, some, List, [], ◌∷◌, count, find, arith,
}
use irc_protocol_server.Client.{Client}
use irc_protocol_server.Channel.{Channel}
use irc_protocol_server.Server.{Server, M, gets, ◌>>=◌, client_at, find_channel}
use irc_protocol_server.Server.Ensures.{Ensures-modify, Ensures-when}
use irc_protocol_server.Server.Links.{
  Same-of_tables, Same-Known, Known, Known_of_member, WellFormed,
}
use irc_protocol_server.Server.Quiet.{
  Quiet, Quiet-pure, Quiet-bind, Quiet-gets, client_at-Quiet, modify_client-Quiet,
  append_recive_buf-IsQuiet, AllKnown, for_each-Quiet, with_channel,
}
use irc_protocol_server.Util.Broadcast.{
  write_line, deliver_nick, deliver, message_all_channel, deliver_plus, plus_message_all_channel,
  to_members,
}

AllKnown-of_count :
    (s : Server) (fds : List ℤ) → ((fd : ℤ) → count fd fds ≢ 0 → Known s fd) → AllKnown s fds
unfolding count
AllKnown-of_count s [] h = tt
AllKnown-of_count s (fd ∷ fds) h = (
  h fd (ground (arith, int_key.beq_iff fd fd)),
  AllKnown-of_count s fds (λ j listed. h j (ground arith)),
)

-- On well-formed tables each member of a channel is a client.
pub members-AllKnown :
    (s : Server) (name : Text) (c : Channel)
    → WellFormed s
    → find name s.channel_list ≡ some c
    → AllKnown s c.client_fd_list
members-AllKnown s name c w e =
    AllKnown-of_count s c.client_fd_list λ fd listed. Known_of_member s fd name c w e listed

pub write_line-Quiet :
    (s : Server) (fd target : ℤ) (line : Client → Text)
    → Known s fd
    → Known s target
    → Quiet (write_line fd line target) s
unfolding write_line
write_line-Quiet s fd target line here there =
    Quiet-bind (client_at fd) _ s (client_at-Quiet fd s here) λ client t same.
      modify_client-Quiet target _ t (append_recive_buf-IsQuiet (line client))
        (Same-Known target same there)

deliver_nick-Quiet :
    (s : Server) (fd target : ℤ) (line : Client → Text) (reader : Client)
    → Known s fd
    → Known s target
    → Quiet (deliver_nick fd line target reader) s
unfolding deliver_nick
deliver_nick-Quiet s fd target line reader here there =
    Quiet-bind (gets _) _ s (Quiet-gets _ s) λ seen t same.
      Ensures-when _ _ _ t (λ _. Quiet-pure tt t)
        λ _.
          Quiet-bind (write_line fd line target) _ t
            (write_line-Quiet t fd target line (Same-Known fd same here)
              (Same-Known target same there))
            λ _ u _. Ensures-modify _ u (Same-of_tables refl refl)

deliver-Quiet :
    (fd : ℤ) (name command message : Text) (target : ℤ) (s : Server)
    → Known s fd
    → Known s target
    → Quiet (deliver fd name command message target) s
unfolding deliver
deliver-Quiet fd name command message target s here there =
    Quiet-bind (client_at target) _ s (client_at-Quiet target s there) λ reader t same.
      let here' = Same-Known fd same here in
      let there' = Same-Known target same there in
      Ensures-when _ _ _ t (λ _. Quiet-pure tt t)
        λ _.
          Ensures-when _ _ _ t (λ _. deliver_nick-Quiet t fd target _ reader here' there')
            λ _. write_line-Quiet t fd target _ here' there'

deliver_plus-Quiet :
    (fd : ℤ) (name command message plus_message : Text) (target : ℤ) (s : Server)
    → Known s fd
    → Known s target
    → Quiet (deliver_plus fd name command message plus_message target) s
unfolding deliver_plus
deliver_plus-Quiet fd name command message plus_message target s here there =
    Quiet-bind (client_at target) _ s (client_at-Quiet target s there) λ reader t same.
      Ensures-when _ _ _ t (λ _. Quiet-pure tt t)
        λ _. write_line-Quiet t fd target _ (Same-Known fd same here) (Same-Known target same there)

-- A loop over the members, where each of them is a client
module _ (fd : ℤ) (name : Text) (s : Server) (here : Known s fd)
    (members : (c : Channel)
      → find name s.channel_list ≡ some c
      → AllKnown s c.client_fd_list) where
  to_members-Quiet :
      (body : ℤ → M (Unit {0}))
      → ((target : ℤ) (s : Server) → Known s fd → Known s target → Quiet (body target) s)
      → Quiet (find_channel name >>= λ found. to_members found body) s
  to_members-Quiet body step =
      with_channel s name _ (λ _. Quiet-pure tt s)
        λ c there. for_each-Quiet fd body step c.client_fd_list s here (members c there)

  pub message_members-Quiet :
      (command message : Text) → Quiet (message_all_channel fd name command message) s
  unfolding message_all_channel
  message_members-Quiet command message =
      to_members-Quiet (deliver fd name command message) (deliver-Quiet fd name command message)

-- A broadcast returns, and changes buffers and the NICK list at most.
module _ (fd : ℤ) (name : Text) (s : Server) (w : WellFormed s) (here : Known s fd) where
  pub message_all_channel-Quiet :
      (command message : Text) → Quiet (message_all_channel fd name command message) s
  message_all_channel-Quiet command message =
      message_members-Quiet fd name s here (λ c there. members-AllKnown s name c w there) command
        message

  pub plus_message_all_channel-Quiet :
      (command message plus_message : Text)
      → Quiet (plus_message_all_channel fd name command message plus_message) s
  unfolding plus_message_all_channel
  plus_message_all_channel-Quiet command message plus_message =
      to_members-Quiet fd name s here (λ c there. members-AllKnown s name c w there)
        (deliver_plus fd name command message plus_message)
        (deliver_plus-Quiet fd name command message plus_message)
