-- ===== src/Safety/Leaving.antt =====
-- A client that is taken out of its channels one by one. Meanwhile it still lists channels that it
-- has left: the invariant is that of the tables with the rest of the list.
use irc_protocol_server.Server.Entries.{erase-WellFormed}
use irc_protocol_server.Server.Counts.{put_client, put_channel, written-found}
use mathlib.Core.Option
use irc_protocol_server.Base.{
  ℤ, int_key, nat_key, Text, text_key, ◌==◌, ◌≡◌, refl, sym, ◌∙◌, ap, some, List, [], ◌∷◌, count,
  erase, find, update, find-update, if◌then◌else◌, arith, Option-cases, inl, inr, keys, keys-update,
  erase_key, erase_key-update, Map,
}
use irc_protocol_server.Client.{Client, delete_channel}
use irc_protocol_server.Channel.{Channel, remove_fd_list_client, remove_operator_fd}
use irc_protocol_server.Server.{Server}
use irc_protocol_server.Server.Links.{
  WellFormed, Known, Same, Same-WellFormed, Shape, shape, shape_at, roll_at, joined,
  channel_of_joined, shape_at-some,
}
use irc_protocol_server.Server.Quiet.{AllKnown, put_channel-Same}
use irc_protocol_server.Server.Changes.{leave-WellFormed}
use irc_protocol_server.Server.Alters.{nothing-joined, nothing-joined}
use irc_protocol_server.Safety.Part.{remove_operator_fd-IsCalm}

-- The list of channels as the loop has still to go through it
abbrev pub set_channels : List Text → Client → Client
set_channels rest c = record c { channel_list = rest }

abbrev pub still_in : ℤ → List Text → Server → Server
still_in fd rest s = put_client fd (set_channels rest) s

pub record Leaving (fd : ℤ) (rest : List Text) (s : Server) : Type 0 where
  pub well : WellFormed (still_in fd rest s)
  pub known : Known s fd

keys_twice :
    (fd : ℤ) (f g h : Client → Client) (m : Map ℤ Client)
    → keys (update fd h m) ≡ keys (update fd f (update fd g m))
keys_twice fd f g h m =
    keys-update fd h m ∙ sym (keys-update fd g m) ∙ sym (keys-update fd f (update fd g m))

-- Two writes to a client that make the shape of one
pub twice-Same :
    (s : Server) (fd : ℤ) (f g h : Client → Client)
    → ((c : Client) → shape (f (g c)) ≡ shape (h c))
    → Same (put_client fd f (put_client fd g s)) (put_client fd h s)
unfolding shape_at roll_at
twice-Same s fd f g h one = record {
  clients = λ j. elim (Option-cases (find j s.client_list)) [
    | inl absent ↦ ground (
      arith,
      find-update j fd f (update fd g s.client_list),
      find-update j fd g s.client_list,
      find-update j fd h s.client_list,
    )
    | inr (c, here) ↦ ground (
      arith,
      find-update j fd f (update fd g s.client_list),
      find-update j fd g s.client_list,
      find-update j fd h s.client_list,
      one c,
    )
  ];
  same_keys = keys_twice fd f g h s.client_list;
  channels = λ name. refl;
}

abbrev with_channels : List Text → Shape → Shape
with_channels rest r = record r { channel_list = rest }

shape_at-still_in :
    (fd : ℤ) (rest : List Text) (s : Server) (j : ℤ)
    → shape_at (still_in fd rest s) j
      ≡ (if fd == j then Option.map (with_channels rest) (shape_at s j) else shape_at s j)
unfolding shape_at
shape_at-still_in fd rest s j = elim (Option-cases (find j s.client_list)) [
  | inl absent ↦ ground (arith, find-update j fd (set_channels rest) s.client_list)
  | inr (c, here) ↦ ground (arith, find-update j fd (set_channels rest) s.client_list)
]

pub Same-still_in :
    (fd : ℤ) (rest : List Text) (s t : Server)
    → Same s t
    → Same (still_in fd rest s) (still_in fd rest t)
unfolding roll_at
Same-still_in fd rest s t same = record {
  clients = λ j.
      shape_at-still_in fd rest t j
      ∙ ap (λ o. if fd == j then Option.map (with_channels rest) o else o) (same.clients j)
      ∙ sym (shape_at-still_in fd rest s j);
  same_keys =
      keys-update fd (set_channels rest) t.client_list
      ∙ same.same_keys
      ∙ sym (keys-update fd (set_channels rest) s.client_list);
  channels = same.channels;
}

delete_first :
    (name : Text) (rest : List Text) (c : Client)
    → shape (delete_channel name (set_channels (name ∷ rest) c)) ≡ shape (set_channels rest c)
unfolding delete_channel erase
delete_first name rest c = ground (arith, text_key.beq_iff name name)

still_in-Known :
    (s : Server) (fd : ℤ) (rest : List Text) (j : ℤ) → Known (still_in fd rest s) j → Known s j
still_in-Known s fd rest j (c, here) = elim (Option-cases (find j s.client_list)) [
  | inl absent ↦ ground (arith, find-update j fd (set_channels rest) s.client_list)
  | inr known ↦ known
]

-- A state in the loop
pub still_left :
    (s : Server) (fd : ℤ) (name : Text) (rest : List Text)
    → WellFormed (still_in fd (name ∷ rest) s)
    → WellFormed (
        still_in fd rest (
          put_channel name (remove_operator_fd fd) (put_channel name (remove_fd_list_client fd) s)))
unfolding shape_at roll_at
still_left s fd name rest w =
    let twice =
      twice-Same s fd (delete_channel name) (set_channels (name ∷ rest)) (set_channels rest)
        (delete_first name rest) in
    Same-WellFormed (put_channel-Same name (remove_operator_fd fd) _ (remove_operator_fd-IsCalm fd))
      (Same-WellFormed (same_channels twice) (leave-WellFormed _ w fd name))
  where
    same_channels :
        Same
          (put_client fd (delete_channel name) (still_in fd (name ∷ rest) s))
          (still_in fd rest s)
        → Same
            (put_channel name
              (remove_fd_list_client fd)
              (put_client fd (delete_channel name) (still_in fd (name ∷ rest) s)))
            (still_in fd rest (put_channel name (remove_fd_list_client fd) s))
    same_channels twice = record {
      clients = twice.clients;
      same_keys = twice.same_keys;
      channels = λ n. refl;
    }

pub listed_still :
    (s : Server) (fd : ℤ) (name : Text) (rest : List Text)
    → Leaving fd (name ∷ rest) s
    → (ch : Channel) × (find name s.channel_list ≡ some ch)
unfolding joined shape_at count
listed_still s fd name rest leaving =
    let (c, here) = leaving.known in
    channel_of_joined (still_in fd (name ∷ rest) s) fd name leaving.well (
      ground (
        arith,
        find-update fd fd (set_channels (name ∷ rest)) s.client_list,
        here,
        int_key.beq_iff fd fd,
        text_key.beq_iff name name,
      ))

pub known_members :
    (s : Server) (fd : ℤ) (rest : List Text) (fds : List ℤ)
    → AllKnown (still_in fd rest s) fds
    → AllKnown s fds
known_members s fd rest [] all = tt
known_members s fd rest (j ∷ fds) all =
    (still_in-Known s fd rest j all.0, known_members s fd rest fds all.1)

-- The start of the loop: the list is the one that the client has.
pub start-Leaving :
    (fd : ℤ) (s : Server) (c : Client)
    → find fd s.client_list ≡ some c
    → WellFormed s
    → Leaving fd c.channel_list s
unfolding roll_at
start-Leaving fd s c here w = record {
  well =
      Same-WellFormed
        (record {
          clients = λ j. ground (
            arith,
            shape_at-still_in fd c.channel_list s j,
            shape_at-some s fd c here,
            int_key.beq_iff fd j,
          );
          same_keys = keys-update fd (set_channels c.channel_list) s.client_list;
          channels = λ name. refl;
        })
        w;
  known = (c, here);
}

-- The client is erased when the loop has gone through its channels.
pub erase-Leaving :
    (fd : ℤ) (s : Server) (closed : List ℤ)
    → Leaving fd [] s
    → WellFormed (record s { client_list = erase_key fd s.client_list; closed = closed })
erase-Leaving fd s closed leaving =
    let (c, here) = leaving.known in
    rw (sym (erase_key-update fd (set_channels []) s.client_list)) (
      erase-WellFormed (still_in fd [] s) leaving.well fd
        (nothing-joined (still_in fd [] s) fd (set_channels [] c)
          (written-found fd (set_channels []) s c here) refl)
        s.sent closed)
