-- ===== src/Safety/Sending.antt =====
-- The send loop of `Server::execute` (IRC_PROTOCOL_SERVER/src/Server.cpp)
use mathlib.Core.Option
use irc_protocol_server.Base.{
  ℤ, int_key, nat_key, ◌==◌, ◌≡◌, refl, some, [], ◌∷◌, Map, find, arith, Bool-cases, inl, inr, Bool,
  Option, none, ◌||◌, ◌&&◌, not, ◌∙◌, ap, length, if◌then◌else◌, push_back, false, true, Text,
  update, find-update,
}
use irc_protocol_server.Client.{Client, clear_recive_buf}
use irc_protocol_server.Server.{Server, for_each, send_buffer}
use irc_protocol_server.Server.Ensures.{
  Ensures, Ensures-bind, Ensures-when, Ensures-gets, Ensures-pure, Ensures-modify, Ensures-mono,
  Ensures-both,
}
use irc_protocol_server.Server.Links.{Same, Same-Known, Known}
use irc_protocol_server.Server.Quiet.{
  Quiet, Quiet-pure, Quiet-bind, modify_client-Quiet, send_buffer-Quiet, at_client,
  modify_client-Ensures,
}
use irc_protocol_server.Events.{flush_client, flush}

-- All clients of a list are on the server.
abbrev KnownEntries : Server → Map ℤ Client → Type 0
KnownEntries s [] = Unit {0}
KnownEntries s ((fd, _) ∷ m) = Known s fd × KnownEntries s m

Same-KnownEntries :
    {s t : Server} (m : Map ℤ Client) → Same s t → KnownEntries s m → KnownEntries t m
Same-KnownEntries [] same all = tt
Same-KnownEntries ((fd, _) ∷ m) same all =
    (Same-Known fd same all.0, Same-KnownEntries m same all.1)

flush_client-Quiet :
    (fd : ℤ) (c : Client) (s : Server) → Known s fd → Quiet (flush_client (fd, c)) s
unfolding flush_client clear_recive_buf
flush_client-Quiet fd c s known =
    Ensures-when _ _ _ s (λ _. Quiet-pure tt s)
      λ _.
        Quiet-bind (send_buffer fd) _ s (send_buffer-Quiet fd s known)
          λ _ t same. modify_client-Quiet fd _ t (λ d. refl) (Same-Known fd same known)

flush_entries-Quiet :
    (m : Map ℤ Client) (s : Server) → KnownEntries s m → Quiet (for_each m flush_client) s
unfolding for_each
flush_entries-Quiet [] s all = Quiet-pure tt s
flush_entries-Quiet ((fd, c) ∷ m) s all =
    Quiet-bind (flush_client (fd, c)) _ s (flush_client-Quiet fd c s all.0)
      λ _ t same. flush_entries-Quiet m t (Same-KnownEntries m same all.1)

-- The keys of a table are found in it, and in one with more in front.
found_behind :
    (fd : ℤ) (m : Map ℤ Client) (j : ℤ) (d c : Client)
    → find fd m ≡ some c
    → (b : Client) × (find fd ((j, d) ∷ m) ≡ some b)
unfolding find
found_behind fd m j d c here = elim (Bool-cases (j == fd)) [
  | inl same ↦ (d, ground arith)
  | inr other ↦ (c, ground arith)
]

entries-Known :
    (s : Server) (m : Map ℤ Client)
    → ((fd : ℤ) (c : Client) → find fd m ≡ some c → Known s fd)
    → KnownEntries s m
unfolding find
entries-Known s [] h = tt
entries-Known s ((fd, c) ∷ m) h = (
  h fd c (ground (arith, int_key.beq_iff fd fd)),
  entries-Known s m (λ j d here. let (b, e) = found_behind j m fd c d here in h j b e),
)

-- The send loop returns from any tables, and leaves who is in which channel, the descriptors, the
-- nicknames and the registration as they were.
pub flush-Same : (s : Server) → Ensures flush s (λ _ t. Same s t)
unfolding flush
flush-Same s =
    Ensures-bind {Q = λ clients t. (clients ≡ s.client_list) × (t ≡ s)} _ _ s
      (Ensures-gets _ s (refl, refl))
      λ clients t (e, same).
        rw (e, same)
          (flush_entries-Quiet s.client_list s
            (entries-Known s s.client_list (λ fd c here. (c, here))))

abbrev pub emptied : Client → Client
emptied c = record c { recive_buf = [] }

abbrev pub settled : Bool → Option Client → Option Client
settled hit o = if hit then Option.map emptied o else o

-- Nothing but the clients and what is sent has changed, and of a client its buffer at most, which is
-- empty where `hit` holds.
abbrev pub Settles : (ℤ → Bool) → Server → Server → Type 0
Settles hit s t =
    (t ≡ record s { client_list = t.client_list; sent = t.sent })
    × ((j : ℤ) → find j t.client_list ≡ settled (hit j) (find j s.client_list))

settled-settled : (a b : Bool) (o : Option Client) → settled b (settled a o) ≡ settled (a || b) o
settled-settled true true none = refl
settled-settled true true (some c) = refl
settled-settled true false o = refl
settled-settled false b o = refl

Settles-trans :
    (s t u : Server) (f g : ℤ → Bool)
    → Settles f s t
    → Settles g t u
    → Settles (λ j. f j || g j) s u
Settles-trans s t u f g (rest, at) (rest', at') = (
  rest' ∙ ap (λ (x : Server). record x { client_list = u.client_list; sent = u.sent }) rest,
  λ j. at' j ∙ (ap (settled (g j)) (at j) ∙ settled-settled (f j) (g j) (find j s.client_list)),
)

no_bytes : (b : Text) → (length b == 0) ≡ true → b ≡ []
no_bytes [] e = refl
no_bytes (c ∷ b) e = ground (arith, e)

emptied_already : (c : Client) → (length c.recive_buf == 0) ≡ true → c ≡ emptied c
emptied_already c e = ap (λ b. record c { recive_buf = b }) (no_bytes c.recive_buf e)

-- What the round of an entry empties
abbrev pub is_waiting : ℤ × Client → ℤ → Bool
is_waiting (fd, c) j = fd == j && not (length c.recive_buf == 0)

abbrev any_waiting : Map ℤ Client → ℤ → Bool
any_waiting [] j = false
any_waiting (entry ∷ m) j = is_waiting entry j || any_waiting m j

idle : (b : Bool) (o : Option Client) → o ≡ settled (b && false) o
idle true o = refl
idle false o = refl

cleared_entry :
    (fd j : ℤ) (m : Map ℤ Client)
    → find j (update fd clear_recive_buf m) ≡ settled (fd == j && true) (find j m)
unfolding clear_recive_buf
cleared_entry fd j m = elim (Bool-cases (fd == j)) [
  | inl same ↦ rw same (ground (arith, find-update j fd clear_recive_buf m))
  | inr other ↦ rw other (ground (arith, find-update j fd clear_recive_buf m))
]

pub flush_client-Settles :
    (fd : ℤ) (c : Client) (s : Server)
    → Known s fd
    → Ensures (flush_client (fd, c)) s (λ _. Settles (is_waiting (fd, c)) s)
unfolding flush_client clear_recive_buf send_buffer
flush_client-Settles fd c s (d, here) =
    Ensures-when _ _ _ s
      (λ nothing. Ensures-pure tt s (refl, λ j. rw nothing (idle (fd == j) (find j s.client_list))))
      λ more.
        Ensures-bind {Q = λ _ t. t ≡ record s { sent = push_back s.sent (fd, d.recive_buf) }} _ _ s
          (at_client s fd _ (d, here)
            λ e there.
              let same : e ≡ d = ground (arith, here, there) in
              Ensures-modify _ s
                (ap (λ (x : Client). record s { sent = push_back s.sent (fd, x.recive_buf) }) same))
          λ _ t e. rw e (
            modify_client-Ensures fd _ _ (d, here)
              (refl, λ j. rw more (cleared_entry fd j s.client_list)))

flush_entries-Settles :
    (m : Map ℤ Client) (s : Server)
    → KnownEntries s m
    → Ensures (for_each m flush_client) s (λ _. Settles (any_waiting m) s)
unfolding for_each
flush_entries-Settles [] s all = Ensures-pure tt s (refl, λ j. refl)
flush_entries-Settles ((fd, c) ∷ m) s all =
    Ensures-bind _ _ s
      (Ensures-both (flush_client-Quiet fd c s all.0) (flush_client-Settles fd c s all.0))
      λ _ t (same, first).
        Ensures-mono (flush_entries-Settles m t (Same-KnownEntries m same all.1))
          λ _ u rest. Settles-trans s t u (is_waiting (fd, c)) (any_waiting m) first rest

-- Where no buffer of a client waits, they are all empty.
nothing-waiting :
    (j : ℤ) (m : Map ℤ Client)
    → settled (any_waiting m j) (find j m) ≡ Option.map emptied (find j m)
unfolding find
nothing-waiting j [] = refl
nothing-waiting j ((fd, c) ∷ m) = elim (Bool-cases (fd == j)) [
  | inl here ↦ elim (Bool-cases (length c.recive_buf == 0)) [
    | inl nothing ↦
        rw (here, nothing)
          (elim (Bool-cases (any_waiting m j)) [
            | inl other ↦ rw other refl
            | inr none_left ↦ rw none_left (ap some (emptied_already c nothing))
          ])
    | inr more ↦ rw (here, more) refl
  ]
  | inr away ↦ rw away (nothing-waiting j m)
]

-- The send loop returns from any tables. The buffer of each client is empty then, and nothing else
-- has changed but the record of what was sent.
pub flush-emptied :
    (s : Server)
    → Ensures flush s (λ _ t.
      (t ≡ record s { client_list = t.client_list; sent = t.sent })
      × ((j : ℤ) → find j t.client_list ≡ Option.map emptied (find j s.client_list)))
unfolding flush
flush-emptied s =
    Ensures-bind {Q = λ clients t. (clients ≡ s.client_list) × (t ≡ s)} _ _ s
      (Ensures-gets _ s (refl, refl))
      λ clients t (e, same).
        rw (e, same)
          (Ensures-mono
            (flush_entries-Settles s.client_list s
              (entries-Known s s.client_list (λ fd c here. (c, here))))
            λ _ u (rest, at). (rest, λ j. at j ∙ nothing-waiting j s.client_list))
