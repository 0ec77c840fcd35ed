-- ===== src/Safety/Closed.antt =====
-- What `Command::run` of IRC_PROTOCOL_SERVER/src/Command.cpp does when recv fails or gives no byte
use irc_protocol_server.Safety.Leaving.{start-Leaving}
use irc_protocol_server.Server.Counts.{put_client, written-found}
use irc_protocol_server.Base.{
  ℤ, negsuc, int_key, nat_key, Text, text_key, ◌≡◌, ◌⊎◌, inl, inr, ◌∷◌, refl, true, false, none,
  some, [], contains, find, find-erase_key, arith, text_eq,
}
use irc_protocol_server.Client.{Client, default_client, write_eof_buffer, set_eof_flag}
use irc_protocol_server.Server.{
  Server, client_at, index_client, disconnect_client, when◌act◌otherwise◌,
}
use irc_protocol_server.Server.Ensures.{
  Ensures, Ensures-mono, Ensures-bind, Ensures-pure, Ensures-modify,
}
use irc_protocol_server.Server.Links.{WellFormed, Known}
use irc_protocol_server.Server.Quiet.{client_at-Ensures, modify_client-Ensures}
use irc_protocol_server.Util.{is_infix}
use irc_protocol_server.Command.Parse.{Received, get_message}
use irc_protocol_server.Command.Dispatch.{keep_partial, run_message, run}
use irc_protocol_server.Safety.Connections.{
  with_ghost, with_ghost-client, index_client-Ensures, disconnect_channels-Leaving,
}

-- The client at `fd` is one that `operator[]` made.
abbrev pub Ghost : ℤ → Server → Type 0
Ghost fd s = (c : Client) × (find fd s.client_list ≡ some c) × (c.fd ≡ negsuc 0)

disconnect_client-erased :
    (fd : ℤ) (s : Server)
    → WellFormed s
    → Known s fd
    → Ensures (disconnect_client fd) s (λ _ t. find fd t.client_list ≡ none)
unfolding disconnect_client
disconnect_client-erased fd s w (c, here) =
    Ensures-bind _ _ s (index_client-Ensures fd c s here) λ d t (e, same).
      rw (e, same)
        (Ensures-bind _ _ s
          (disconnect_channels-Leaving fd c.channel_list s (start-Leaving fd s c here w))
          λ _ u leaving.
            Ensures-modify _ u
              (ground (arith, find-erase_key fd fd u.client_list, int_key.beq_iff fd fd)))

index_missing-Ensures :
    (fd : ℤ) (s : Server)
    → find fd s.client_list ≡ none
    → Ensures (index_client fd) s (λ _ t. t ≡ with_ghost fd s)
unfolding index_client
index_missing-Ensures fd s absent =
    Ensures-bind {Q = λ _ t. t ≡ with_ghost fd s} _ (λ _. client_at fd) s (Ensures-modify _ s refl)
      λ _ t e. rw e (
        Ensures-mono (client_at-Ensures fd _ (with_ghost fd s) (with_ghost-client fd s absent))
          λ _ u found. found.1)

keep_partial-Ghost :
    (fd : ℤ) (message : Text) (s : Server)
    → find fd s.client_list ≡ none
    → Ensures (keep_partial fd message) s (λ _. Ghost fd)
unfolding keep_partial default_client write_eof_buffer set_eof_flag
keep_partial-Ghost fd message s absent =
    let made = with_ghost-client fd s absent in
    let g = with_ghost fd s in
    let kept = written-found fd (write_eof_buffer message) g (default_client false) made in
    Ensures-bind _ _ s (index_missing-Ensures fd s absent) λ _ t e. rw e (
      Ensures-bind {Q = λ _ u. u ≡ put_client fd (write_eof_buffer message) g} _ _ g
        (modify_client-Ensures fd _ g (default_client false, made) refl)
        λ _ u e'. rw e' (
          modify_client-Ensures fd _ (put_client fd (write_eof_buffer message) g) (_, kept)
            (
              _,
              written-found fd (set_eof_flag true) (put_client fd (write_eof_buffer message) g) _
                  kept,
              refl,
            )))

-- recv failed, or it gave no byte: the other end has closed.
abbrev pub GaveNothing : Received → Type 0
GaveNothing received = (received ≡ none) ⊎ (received ≡ some [])

get_message-closed :
    (fd : ℤ) (received : Received) (s : Server)
    → WellFormed s
    → Known s fd
    → GaveNothing received
    → Ensures
        (get_message fd received)
        s
        (λ message t. (message ≡ []) × (find fd t.client_list ≡ none))
unfolding get_message
get_message-closed fd none s w known nothing =
    Ensures-bind _ _ s (disconnect_client-erased fd s w known)
      λ _ t gone. Ensures-pure [] t (refl, gone)
get_message-closed fd (some []) s w known nothing =
    Ensures-bind _ _ s (disconnect_client-erased fd s w known)
      λ _ t gone. Ensures-pure [] t (refl, gone)
get_message-closed fd (some (c ∷ rest)) s w known (inl failed) = ground (arith, failed)
get_message-closed fd (some (c ∷ rest)) s w known (inr ended) = ground (arith, ended)

-- When recv fails or gives no byte for a client on the server, `run` returns from well-formed tables,
-- and a client with descriptor -1 is then at that descriptor.
pub run-Ghost :
    (fd : ℤ) (received : Received) (s : Server)
    → WellFormed s
    → Known s fd
    → GaveNothing received
    → Ensures (run fd received) s (λ _. Ghost fd)
unfolding run run_message is_infix contains when◌act◌otherwise◌ text_eq
run-Ghost fd received s w known nothing =
    Ensures-bind _ _ s (get_message-closed fd received s w known nothing)
      λ message t (e, gone). rw e (keep_partial-Ghost fd [] t gone)
