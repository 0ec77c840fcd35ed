-- ===== src/Server/Quiet.antt =====
-- Actions that return and leave all that the invariant reads as it was.
use mathlib.Core.Option
use irc_protocol_server.Base.{
  Map, Key, ℤ, int_key, Text, text_key, ◌≡◌, refl, Option, none, some, List, [], ◌∷◌, find, update,
  find-update, arith, Option-cases, inl, inr, keys-update,
}
use irc_protocol_server.Client.{Client, append_recive_buf}
use irc_protocol_server.Channel.{Channel}
use irc_protocol_server.Server.State.{Server, M, pure, ◌>>=◌, gets, for_each}
use irc_protocol_server.Server.Tables.{
  client_at, modify_channel, lookup_client, modify_client, find_channel, send_buffer, deref_channel,
  find_client, modify_channel, with_nickname,
}
use irc_protocol_server.Server.Ensures.{
  Ensures, returns, Ensures-bind, Ensures-mono, Ensures-pure, Ensures-gets,
}
use irc_protocol_server.Server.Links.{
  shape, shape_at, Same, Same-refl, Same-trans, Same-of_tables, Same-Known, Known, roll, roll_at,
}

abbrev pub Quiet : {A : Type 0} → M A → Server → Type 0
Quiet m s = Ensures m s (λ _ t. Same s t)

pub Quiet-pure : {A : Type 0} (a : A) (s : Server) → Quiet (pure a) s
Quiet-pure a s = Ensures-pure a s (Same-refl s)

pub Quiet-gets : {A : Type 0} (f : Server → A) (s : Server) → Quiet (gets f) s
Quiet-gets f s = Ensures-gets f s (Same-refl s)

pub Quiet-bind :
    {A B : Type 0} (m : M A) (f : A → M B) (s : Server)
    → Quiet m s
    → ((a : A) (t : Server) → Same s t → Quiet (f a) t)
    → Quiet (m >>= f) s
Quiet-bind m f s h k =
    Ensures-bind m f s h λ a t same. Ensures-mono (k a t same) λ b u later. Same-trans same later

-- The rest of a block may use what the client was.
pub client_at-Ensures :
    (fd : ℤ) (c : Client) (s : Server)
    → find fd s.client_list ≡ some c
    → Ensures (client_at fd) s (λ d t. (d ≡ c) × (t ≡ s))
unfolding client_at
client_at-Ensures fd c s e = record { outcome = rw e (returns (refl, refl)) }

pub client_at-Quiet : (fd : ℤ) (s : Server) → Known s fd → Quiet (client_at fd) s
unfolding client_at
client_at-Quiet fd s (c, e) = record { outcome = rw e (returns (Same-refl s)) }

abbrev pub IsQuiet : (Client → Client) → Type 0
IsQuiet f = (c : Client) → shape (f c) ≡ shape c

pub modify_client-Ensures :
    {Q : Unit {0} → Server → Type 0} (fd : ℤ) (f : Client → Client) (s : Server)
    → Known s fd
    → Q tt (record s { client_list = update fd f s.client_list })
    → Ensures (modify_client fd f) s Q
unfolding modify_client
modify_client-Ensures fd f s (c, e) q = record { outcome = rw e (returns q) }

-- A write that keeps `g` of each value keeps it at each key.
map-update {ℓ} :
    {K V : Type 0} {W : Type ℓ} ⦃o : Key K⦄ (g : V → W) (f : V → V) (k j : K) (m : Map K V)
    → ((v : V) → g (f v) ≡ g v)
    → Option.map g (find j (update k f m)) ≡ Option.map g (find j m)
map-update g f k j m keep = elim (Option-cases (find j m)) [
  | inl absent ↦ ground (arith, find-update j k f m)
  | inr (v, here) ↦ ground (arith, find-update j k f m, keep v)
]

pub update-Same :
    (s : Server) (fd : ℤ) (f : Client → Client)
    → IsQuiet f
    → Same s (record s { client_list = update fd f s.client_list })
unfolding shape_at roll_at
update-Same s fd f quiet = record {
  clients = λ j. map-update shape f fd j s.client_list quiet;
  same_keys = keys-update fd f s.client_list;
  channels = λ name. refl;
}

-- A write that the invariant does not see
pub modify_client-Quiet :
    (fd : ℤ) (f : Client → Client) (s : Server)
    → IsQuiet f
    → Known s fd
    → Quiet (modify_client fd f) s
modify_client-Quiet fd f s quiet known =
    modify_client-Ensures fd f s known (update-Same s fd f quiet)

-- A write to a channel that leaves its name and its members
abbrev pub IsCalm : (Channel → Channel) → Type 0
IsCalm f = (c : Channel) → roll (f c) ≡ roll c

pub put_channel-Same :
    (name : Text) (f : Channel → Channel) (s : Server)
    → IsCalm f
    → Same s (record s { channel_list = update name f s.channel_list })
unfolding shape_at roll_at
put_channel-Same name f s calm = record {
  clients = λ fd. refl;
  same_keys = refl;
  channels = λ j. map-update roll f name j s.channel_list calm;
}

pub modify_channel-Ensures :
    {Q : Unit {0} → Server → Type 0} (name : Text) (f : Channel → Channel) (s : Server)
    (c : Channel)
    → find name s.channel_list ≡ some c
    → Q tt (record s { channel_list = update name f s.channel_list })
    → Ensures (modify_channel name f) s Q
unfolding modify_channel
modify_channel-Ensures name f s c e q = record { outcome = rw e (returns q) }

pub modify_channel-Quiet :
    (name : Text) (f : Channel → Channel) (s : Server) (c : Channel)
    → IsCalm f
    → find name s.channel_list ≡ some c
    → Quiet (modify_channel name f) s
modify_channel-Quiet name f s c calm e =
    modify_channel-Ensures name f s c e (put_channel-Same name f s calm)

pub append_recive_buf-IsQuiet : (line : Text) → IsQuiet (append_recive_buf line)
unfolding append_recive_buf
append_recive_buf-IsQuiet line c = refl

pub send_buffer-Quiet : (fd : ℤ) (s : Server) → Known s fd → Quiet (send_buffer fd) s
unfolding send_buffer
send_buffer-Quiet fd s (c, e) = record { outcome = rw e (returns (Same-of_tables refl refl)) }

-- Reads of the tables
pub find_channel-Ensures :
    (name : Text) (s : Server)
    → Ensures (find_channel name) s (λ o t. (o ≡ find name s.channel_list) × (t ≡ s))
unfolding find_channel
find_channel-Ensures name s = record { outcome = returns (refl, refl) }

pub lookup_client-Ensures :
    (fd : ℤ) (s : Server)
    → Ensures (lookup_client fd) s (λ o t. (o ≡ find fd s.client_list) × (t ≡ s))
unfolding lookup_client
lookup_client-Ensures fd s = record { outcome = returns (refl, refl) }

pub find_client-Ensures :
    (name : Text) (s : Server)
    → Ensures (find_client name) s (λ o t. (o ≡ with_nickname name s.client_list) × (t ≡ s))
unfolding find_client
find_client-Ensures name s = record { outcome = returns (refl, refl) }

pub deref-Ensures :
    (name : Text) (c : Channel) (s : Server)
    → find name s.channel_list ≡ some c
    → Ensures (find_channel name >>= deref_channel) s (λ d t. (d ≡ c) × (t ≡ s))
unfolding find_channel ◌>>=◌
deref-Ensures name c s e = record { outcome = rw e (returns (refl, refl)) }

-- A block that reads a channel first: the rest is run on the same state, with what was found.
module _ {A : Type 0} {Q : A → Server → Type 0} (s : Server) where
  pub with_channel :
      (name : Text) (f : Option Channel → M A)
      → (find name s.channel_list ≡ none → Ensures (f none) s Q)
      → ((c : Channel) → find name s.channel_list ≡ some c → Ensures (f (some c)) s Q)
      → Ensures (find_channel name >>= f) s Q
  with_channel name f missing found =
      Ensures-bind (find_channel name) f s (find_channel-Ensures name s) λ o t (e, same).
        elim (Option-cases (find name s.channel_list)) [
          | inl absent ↦ rw (same, e, absent) (missing absent)
          | inr (c, there) ↦ rw (same, e, there) (found c there)
        ]

  pub with_client :
      (fd : ℤ) (f : Option Client → M A)
      → (find fd s.client_list ≡ none → Ensures (f none) s Q)
      → ((c : Client) → find fd s.client_list ≡ some c → Ensures (f (some c)) s Q)
      → Ensures (lookup_client fd >>= f) s Q
  with_client fd f missing found =
      Ensures-bind (lookup_client fd) f s (lookup_client-Ensures fd s) λ o t (e, same).
        elim (Option-cases (find fd s.client_list)) [
          | inl absent ↦ rw (same, e, absent) (missing absent)
          | inr (c, there) ↦ rw (same, e, there) (found c there)
        ]

  pub with_named :
      (name : Text) (f : Option (ℤ × Client) → M A)
      → (with_nickname name s.client_list ≡ none → Ensures (f none) s Q)
      → ((p : ℤ × Client) → with_nickname name s.client_list ≡ some p → Ensures (f (some p)) s Q)
      → Ensures (find_client name >>= f) s Q
  with_named name f missing found =
      Ensures-bind (find_client name) f s (find_client-Ensures name s) λ o t (e, same).
        elim (Option-cases (with_nickname name s.client_list)) [
          | inl absent ↦ rw (same, e, absent) (missing absent)
          | inr (p, there) ↦ rw (same, e, there) (found p there)
        ]

  -- The read of a client that is there
  pub at_client :
      (fd : ℤ) (f : Client → M A)
      → Known s fd
      → ((c : Client) → find fd s.client_list ≡ some c → Ensures (f c) s Q)
      → Ensures (client_at fd >>= f) s Q
  at_client fd f (c, there) found =
      Ensures-bind (client_at fd) f s (client_at-Ensures fd c s there)
        λ d t (e, same). rw (same, e) (found c there)

  pub at_channel :
      (name : Text) (f : Channel → M A) (c : Channel)
      → find name s.channel_list ≡ some c
      → Ensures (f c) s Q
      → Ensures (find_channel name >>= deref_channel >>= f) s Q
  at_channel name f c there found =
      Ensures-bind (find_channel name >>= deref_channel) f s (deref-Ensures name c s there)
        λ d t (e, same). rw (same, e) found

-- A loop over descriptors that are all known
abbrev pub AllKnown : Server → List ℤ → Type 0
AllKnown s [] = Unit {0}
AllKnown s (fd ∷ fds) = Known s fd × AllKnown s fds

pub Same-AllKnown : {s t : Server} (fds : List ℤ) → Same s t → AllKnown s fds → AllKnown t fds
Same-AllKnown [] same all = tt
Same-AllKnown (fd ∷ fds) same all = (Same-Known fd same all.0, Same-AllKnown fds same all.1)

pub for_each-Quiet :
    (fd : ℤ) (body : ℤ → M (Unit {0}))
    → ((target : ℤ) (s : Server) → Known s fd → Known s target → Quiet (body target) s)
    → (fds : List ℤ) (s : Server) → Known s fd
    → AllKnown s fds
    → Quiet (for_each fds body) s
unfolding for_each
for_each-Quiet fd body step [] s here all = Quiet-pure tt s
for_each-Quiet fd body step (target ∷ fds) s here all =
    Quiet-bind (body target) _ s (step target s here all.0) λ _ t same.
      for_each-Quiet fd body step fds t (Same-Known fd same here) (Same-AllKnown fds same all.1)
