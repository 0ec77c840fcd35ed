-- ===== src/Safety/Connections.antt =====
-- `disconnectClient` and `accept` of IRC_PROTOCOL_SERVER/src/Server.cpp
use irc_protocol_server.Safety.Leaving.{
  Leaving, still_left, listed_still, Same-still_in, start-Leaving, erase-Leaving,
}
use irc_protocol_server.Server.Entries.{arrive-WellFormed}
use irc_protocol_server.Server.Counts.{put_channel}
use irc_protocol_server.Base.{
  ℤ, int_key, Text, text_key, ◌≡◌, refl, none, find-insert, arith, ap, Bool, false, some, List, [],
  ◌∷◌, find, insert, push_back, Option-cases, inl, inr, insert_present,
}
use irc_protocol_server.Client.{Client, default_client, new_client}
use irc_protocol_server.Channel.{remove_fd_list_client, remove_operator_fd, remove_invite_fd}
use irc_protocol_server.Server.{
  Server, for_each, index_client, disconnect_channel, disconnect_client, client_at,
}
use irc_protocol_server.Server.Ensures.{
  Ensures, Ensures-bind, Ensures-mono, Ensures-pure, Ensures-modify,
}
use irc_protocol_server.Server.Links.{Same-of_tables, WellFormed, Same-WellFormed, Same-Known}
use irc_protocol_server.Server.Quiet.{
  client_at-Ensures, modify_channel-Ensures, modify_channel-Quiet, IsCalm,
}
use irc_protocol_server.Events.{accept_client}
use irc_protocol_server.Safety.Part.{update-channel}

pub remove_invite_fd-IsCalm : (fd : ℤ) → IsCalm (remove_invite_fd fd)
unfolding remove_invite_fd
remove_invite_fd-IsCalm fd c = refl

-- `operator[]` on a key that is not there
abbrev pub with_ghost : ℤ → Server → Server
with_ghost fd s = record s { client_list = insert fd (default_client false) s.client_list }

pub with_ghost-client :
    (fd : ℤ) (s : Server)
    → find fd s.client_list ≡ none
    → find fd (with_ghost fd s).client_list ≡ some (default_client false)
with_ghost-client fd s absent =
    ground
      (arith, find-insert fd fd (default_client false) s.client_list absent, int_key.beq_iff fd fd)

-- `operator[]` on a key that is there
pub index_client-Ensures :
    (fd : ℤ) (c : Client) (s : Server)
    → find fd s.client_list ≡ some c
    → Ensures (index_client fd) s (λ d t. (d ≡ c) × (t ≡ s))
unfolding index_client
index_client-Ensures fd c s here =
    Ensures-bind {Q = λ _ t. t ≡ s} _ (λ _. client_at fd) s
      (Ensures-modify _ s (
        ap (λ m. record s { client_list = m })
          (insert_present fd (default_client false) c s.client_list here)))
      λ _ t e. rw e (client_at-Ensures fd c s here)

pub disconnect_channel-Leaving :
    (fd : ℤ) (name : Text) (rest : List Text) (s : Server)
    → Leaving fd (name ∷ rest) s
    → Ensures (disconnect_channel fd name) s (λ _. Leaving fd rest)
unfolding disconnect_channel
disconnect_channel-Leaving fd name rest s leaving =
    let (ch, there) = listed_still s fd name rest leaving in
    let gone = update-channel name (remove_fd_list_client fd) s ch there in
    Ensures-bind {Q = λ _ t. t ≡ put_channel name (remove_fd_list_client fd) s} _ _ s
      (modify_channel-Ensures name _ s ch there refl)
      λ _ t e. rw e (
        Ensures-bind
          {Q = λ _ u.
            u
            ≡ put_channel name (remove_operator_fd fd)
                (put_channel name (remove_fd_list_client fd) s)}
          _ _ _ (modify_channel-Ensures name _ _ _ gone refl)
          λ _ u e'. rw e' (
            Ensures-mono
              (modify_channel-Quiet name (remove_invite_fd fd) _ _ (remove_invite_fd-IsCalm fd) (
                update-channel name (remove_operator_fd fd)
                  (put_channel name (remove_fd_list_client fd) s) _ gone))
              λ _ v same. record {
                well =
                    Same-WellFormed (Same-still_in fd rest _ v same)
                      (still_left s fd name rest leaving.well);
                known = Same-Known fd same leaving.known;
              }))

pub disconnect_channels-Leaving :
    (fd : ℤ) (names : List Text) (s : Server)
    → Leaving fd names s
    → Ensures (for_each names (disconnect_channel fd)) s (λ _. Leaving fd [])
unfolding for_each
disconnect_channels-Leaving fd [] s leaving = Ensures-pure tt s leaving
disconnect_channels-Leaving fd (name ∷ names) s leaving =
    Ensures-bind (disconnect_channel fd name) _ s
      (disconnect_channel-Leaving fd name names s leaving)
      λ _ t leaving'. disconnect_channels-Leaving fd names t leaving'

-- `operator[]` on any key
pub index_client-WellFormed :
    (fd : ℤ) (s : Server)
    → WellFormed s
    → Ensures (index_client fd) s (λ c t. WellFormed t × (find fd t.client_list ≡ some c))
unfolding index_client default_client new_client
index_client-WellFormed fd s w = elim (Option-cases (find fd s.client_list)) [
  | inr (c, here) ↦
      Ensures-mono (index_client-Ensures fd c s here) λ d t (e, same). rw (e, same) (w, here)
  | inl absent ↦
      Ensures-bind {Q = λ _ t. t ≡ with_ghost fd s} _ (λ _. client_at fd) s
        (Ensures-modify _ s refl)
        λ _ t e. rw e (
          Ensures-mono (client_at-Ensures fd _ (with_ghost fd s) (with_ghost-client fd s absent))
            λ d u (is_new, same).
              rw (is_new, same)
                (
                  arrive-WellFormed s w fd (default_client false) absent (inr refl) refl refl,
                  with_ghost-client fd s absent,
                ))
]

-- `disconnectClient` returns from well-formed tables, and leaves them well-formed, whether there is
-- a client at the descriptor or not.
pub disconnect_client-WellFormed :
    (fd : ℤ) (s : Server) → WellFormed s → Ensures (disconnect_client fd) s (λ _. WellFormed)
unfolding disconnect_client
disconnect_client-WellFormed fd s w =
    Ensures-bind _ _ s (index_client-WellFormed fd s w) λ c t (w', here).
      Ensures-bind _ _ t
        (disconnect_channels-Leaving fd c.channel_list t (start-Leaving fd t c here w'))
        λ _ u leaving. Ensures-modify _ u (erase-Leaving fd u (push_back u.closed fd) leaving)

pub accepted-WellFormed :
    (fd : ℤ) (flag : Bool) (s : Server)
    → WellFormed s
    → WellFormed (record s { client_list = insert fd (new_client fd flag) s.client_list })
unfolding new_client
accepted-WellFormed fd flag s w = elim (Option-cases (find fd s.client_list)) [
  | inr (c, here) ↦ rw (insert_present fd (new_client fd flag) c s.client_list here) w
  | inl free ↦ arrive-WellFormed s w fd (new_client fd flag) free (inl refl) refl refl
]

-- `accept` leaves well-formed tables well-formed, also where the descriptor has a client already.
pub accept_client-WellFormed :
    (fd : ℤ) (flag : Bool) (s : Server)
    → WellFormed s
    → Ensures (accept_client fd flag) s (λ _. WellFormed)
unfolding accept_client
accept_client-WellFormed fd flag s w =
    Ensures-modify _ s
      (Same-WellFormed (Same-of_tables refl refl) (accepted-WellFormed fd flag s w))
