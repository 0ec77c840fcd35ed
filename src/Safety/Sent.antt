-- ===== src/Safety/Sent.antt =====
-- What the send loop of `Server::execute` (IRC_PROTOCOL_SERVER/src/Server.cpp) sends
use mathlib.Core.Option
use mathlib.Core.List.{append-nil, append_assoc}
use irc_protocol_server.Base.{
  ◌≤◌, ℤ, Text, int_key, nat_key, ◌==◌, ◌≡◌, refl, sym, ◌∙◌, ap, some, false, List, [], ◌∷◌, ◌++◌,
  Map, find, keys, count, Distinct, count-keys-some, length, push_back, if◌then◌else◌, arith,
  Bool-cases, inl, inr,
}
use irc_protocol_server.Client.{Client}
use irc_protocol_server.Server.{Server, for_each, send_buffer}
use irc_protocol_server.Server.Ensures.{
  Ensures, Ensures-bind, Ensures-both, Ensures-mono, Ensures-when, Ensures-pure, Ensures-gets,
  Ensures-modify,
}
use irc_protocol_server.Server.Quiet.{at_client, modify_client-Ensures}
use irc_protocol_server.Events.{flush_client, flush}
use irc_protocol_server.Safety.Sending.{
  emptied, Settles, is_waiting, flush_client-Settles, flush-emptied,
}

-- What waits for the client of an entry
abbrev line : ℤ × Client → List (ℤ × Text)
line (fd, c) = if length c.recive_buf == 0 then [] else (fd, c.recive_buf) ∷ []

-- The buffers that are not empty, in the order of the table
abbrev pub lines : Map ℤ Client → List (ℤ × Text)
lines [] = []
lines (entry ∷ m) = line entry ++ lines m

-- The buffers of the entries are those in the table.
abbrev AllRead : Server → Map ℤ Client → Type 0
AllRead s [] = Unit {0}
AllRead s ((fd, c) ∷ m) =
    ((d : Client) × (find fd s.client_list ≡ some d) × (d.recive_buf ≡ c.recive_buf)) × AllRead s m

Distinct-behind : (fd : ℤ) (c : Client) (m : Map ℤ Client) → Distinct ((fd, c) ∷ m) → Distinct m
unfolding count
Distinct-behind fd c m once j = ground (arith, once j)

alone : (fd : ℤ) (c : Client) (m : Map ℤ Client) → Distinct ((fd, c) ∷ m) → count fd (keys m) ≡ 0
unfolding count
alone fd c m once = ground (arith, once fd, int_key.beq_iff fd fd)

found_behind :
    (fd j : ℤ) (c d : Client) (m : Map ℤ Client)
    → count fd (keys m) ≡ 0
    → find j m ≡ some d
    → find j ((fd, c) ∷ m) ≡ some d
unfolding find
found_behind fd j c d m out here = elim (Bool-cases (fd == j)) [
  | inl same ↦ absurd (ground (arith, count-keys-some j d m here, int_key.beq_iff fd j, out))
  | inr other ↦ rw other here
]

flush_client-line :
    (fd : ℤ) (c d : Client) (s : Server)
    → find fd s.client_list ≡ some d
    → d.recive_buf ≡ c.recive_buf
    → Ensures (flush_client (fd, c)) s (λ _ t. t.sent ≡ s.sent ++ line (fd, c))
unfolding flush_client send_buffer
flush_client-line fd c d s here same =
    Ensures-when _ _ _ s (λ idle. rw idle (Ensures-pure tt s (sym (append-nil s.sent))))
      λ more. rw more (
        Ensures-bind {Q = λ _ t. t ≡ record s { sent = push_back s.sent (fd, c.recive_buf) }} _ _ s
          (at_client s fd _ (d, here)
            λ e there.
              let sends : e.recive_buf ≡ c.recive_buf = ground (arith, here, there, same) in
              Ensures-modify _ s (ap (λ b. record s { sent = push_back s.sent (fd, b) }) sends))
          λ _ t e. rw e (modify_client-Ensures fd _ _ (d, here) refl))

-- A round leaves the buffers of the other entries.
AllRead-kept :
    (fd : ℤ) (c : Client) (s t : Server) (m : Map ℤ Client)
    → count fd (keys m) ≡ 0
    → Settles (is_waiting (fd, c)) s t
    → AllRead s m
    → AllRead t m
unfolding count
AllRead-kept fd c s t [] out settles all = tt
AllRead-kept fd c s t ((j, e) ∷ m) out settles ((d, here, same), all) =
    let other : (fd == j) ≡ false = ground (arith, out, int_key.beq_iff fd j) in
    (
      (d, rw other at (settles.1 j) ∙ here, same),
      AllRead-kept fd c s t m (ground (arith, out)) settles all,
    )

flush_entries-lines :
    (m : Map ℤ Client) (s : Server)
    → Distinct m
    → AllRead s m
    → Ensures (for_each m flush_client) s (λ _ t. t.sent ≡ s.sent ++ lines m)
unfolding for_each
flush_entries-lines [] s once all = Ensures-pure tt s (sym (append-nil s.sent))
flush_entries-lines ((fd, c) ∷ m) s once ((d, here, same), all) =
    Ensures-bind _ _ s
      (Ensures-both (flush_client-Settles fd c s (d, here)) (flush_client-line fd c d s here same))
      λ _ t (settles, sends).
        Ensures-mono
          (flush_entries-lines m t (Distinct-behind fd c m once)
            (AllRead-kept fd c s t m (alone fd c m once) settles all))
          λ _ u rest.
            rest ∙ (ap (λ l. l ++ lines m) sends ∙ append_assoc s.sent (line (fd, c)) (lines m))

entries-AllRead :
    (s : Server) (m : Map ℤ Client)
    → Distinct m
    → ((fd : ℤ) (c : Client) → find fd m ≡ some c → find fd s.client_list ≡ some c)
    → AllRead s m
unfolding find
entries-AllRead s [] once h = tt
entries-AllRead s ((fd, c) ∷ m) once h = (
  (c, h fd c (ground (arith, int_key.beq_iff fd fd)), refl),
  entries-AllRead s m (Distinct-behind fd c m once)
      (λ j d here. h j d (found_behind fd j c d m (alone fd c m once) here)),
)

flush-sent :
    (s : Server)
    → Distinct s.client_list
    → Ensures flush s (λ _ t. t.sent ≡ s.sent ++ lines s.client_list)
unfolding flush
flush-sent s once =
    Ensures-bind {Q = λ clients t. (clients ≡ s.client_list) × (t ≡ s)} _ _ s
      (Ensures-gets _ s (refl, refl))
      λ clients t (e, same).
        rw (e, same)
          (flush_entries-lines s.client_list s once
            (entries-AllRead s s.client_list once (λ fd c here. here)))

-- The send loop returns from tables where no descriptor has two clients. It sends each buffer that
-- is not empty to its client, one after the other in the order of the table, the buffer of each
-- client is empty then, and nothing else has changed.
pub flush-lines :
    (s : Server)
    → ((fd : ℤ) → count fd (keys s.client_list) ≤ 1)
    → Ensures flush s (λ _ t.
      (t ≡ record s { client_list = t.client_list; sent = s.sent ++ lines s.client_list })
      × ((j : ℤ) → find j t.client_list ≡ Option.map emptied (find j s.client_list)))
flush-lines s once =
    Ensures-mono (Ensures-both (flush-emptied s) (flush-sent s once)) λ _ t ((rest, at), sends).
      (rest ∙ ap (λ l. record s { client_list = t.client_list; sent = l }) sends, at)
