-- ===== src/Server/Links.antt =====
-- The invariant of the two tables: a channel counts a member as often as that client counts the
-- channel, and at most once; who is not registered is in no channel; nicknames are not shared.
use mathlib.Core.Option
use irc_protocol_server.Base.{
  ℕ, ℤ, negsuc, int_key, Text, text_key, ◌≡◌, ◌≢◌, refl, sym, ◌∙◌, ap, ◌⊎◌, inl, inr, Bool, false,
  Option, none, some, List, [], count, find, arith, Option-cases, keys, Distinct, ◌≤◌, ◌&&◌, text,
}
use irc_protocol_server.Client.{Client}
use irc_protocol_server.Channel.{Channel}
use irc_protocol_server.Server.State.{Server}

-- What the invariant reads of a client
pub record Shape : Type 0 where
  pub fd : ℤ
  pub channel_list : List Text
  pub nick_name : Text
  pub is_regi_pass : Bool
  pub is_regi_nick : Bool
  pub is_regi_user : Bool

abbrev pub shape : Client → Shape
shape c = record {
  fd = c.fd;
  channel_list = c.channel_list;
  nick_name = c.nick_name;
  is_regi_pass = c.is_regi_pass;
  is_regi_nick = c.is_regi_nick;
  is_regi_user = c.is_regi_user;
}

unfoldable pub shape_at : Server → ℤ → Option Shape
shape_at s fd = Option.map shape (find fd s.client_list)

abbrev pub registered : Shape → Bool
registered c = c.is_regi_pass && (c.is_regi_nick && c.is_regi_user)

abbrev pub count_in : Text → Option Shape → ℕ
count_in name none = 0
count_in name (some c) = count name c.channel_list

-- How often the client at `fd` lists the channel
unfoldable pub joined : Server → ℤ → Text → ℕ
joined s fd name = count_in name (shape_at s fd)

-- What the invariant reads of a channel
pub record Roll : Type 0 where
  pub channel_name : Text
  pub client_fd_list : List ℤ

abbrev pub roll : Channel → Roll
roll c = record { channel_name = c.channel_name; client_fd_list = c.client_fd_list }

unfoldable pub roll_at : Server → Text → Option Roll
roll_at s name = Option.map roll (find name s.channel_list)

abbrev pub count_of : ℤ → Option Roll → ℕ
count_of fd none = 0
count_of fd (some c) = count fd c.client_fd_list

-- How often the channel lists the descriptor
unfoldable pub member : Server → ℤ → Text → ℕ
member s fd name = count_of fd (roll_at s name)

-- Two clients share the nickname "*" only, which a client has that has not chosen one yet.
abbrev pub DistinctNicks : Server → Type 0
DistinctNicks s =
    (i j : ℤ) (a b : Shape)
    → shape_at s i ≡ some a
    → shape_at s j ≡ some b
    → a.nick_name ≡ b.nick_name
    → a.nick_name ≢ text "*"
    → i ≡ j

-- `outside`: who is not registered is in no channel. `once`: nobody is in a channel twice.
pub record WellFormed (s : Server) : Type 0 where
  pub linked : (fd : ℤ) (name : Text) → member s fd name ≡ joined s fd name
  pub named : (name : Text) (c : Roll) → roll_at s name ≡ some c → c.channel_name ≡ name
  pub keyed : (fd : ℤ) (c : Shape) → shape_at s fd ≡ some c → (c.fd ≡ fd) ⊎ (c.fd ≡ negsuc 0)
  pub outside :
      (fd : ℤ) (c : Shape) → shape_at s fd ≡ some c → registered c ≡ false → c.channel_list ≡ []
  pub once : (fd : ℤ) (name : Text) → joined s fd name ≤ 1
  pub nicks : DistinctNicks s
  pub distinct : Distinct s.client_list

-- There is a client at `fd`.
abbrev pub Known : Server → ℤ → Type 0
Known s fd = (c : Client) × (find fd s.client_list ≡ some c)

-- The states differ in nothing that the invariant reads.
pub record Same (s t : Server) : Type 0 where
  pub clients : (fd : ℤ) → shape_at t fd ≡ shape_at s fd
  pub same_keys : keys t.client_list ≡ keys s.client_list
  pub channels : (name : Text) → roll_at t name ≡ roll_at s name

pub Same-refl : (s : Server) → Same s s
Same-refl s = record { clients = λ fd. refl; same_keys = refl; channels = λ name. refl }

pub Same-trans : {s t u : Server} → Same s t → Same t u → Same s u
Same-trans p q = record {
  clients = λ fd. q.clients fd ∙ p.clients fd;
  same_keys = q.same_keys ∙ p.same_keys;
  channels = λ name. q.channels name ∙ p.channels name;
}

-- A change of the system calls or of the NICK list
pub Same-of_tables :
    {s t : Server} → t.client_list ≡ s.client_list → t.channel_list ≡ s.channel_list → Same s t
unfolding shape_at roll_at
Same-of_tables p q = record {
  clients = λ fd. ap (λ m. Option.map shape (find fd m)) p;
  same_keys = ap keys p;
  channels = λ name. ap (λ m. Option.map roll (find name m)) q;
}

pub shape_at-some :
    (s : Server) (fd : ℤ) (c : Client)
    → find fd s.client_list ≡ some c
    → shape_at s fd ≡ some (shape c)
unfolding shape_at
shape_at-some s fd c e = ap (Option.map shape) e

pub Known_of_shape : (s : Server) (fd : ℤ) (c : Shape) → shape_at s fd ≡ some c → Known s fd
unfolding shape_at
Known_of_shape s fd c e = elim (Option-cases (find fd s.client_list)) [
  | inl absent ↦ cc (ap (Option.map shape) absent)
  | inr here ↦ here
]

pub client_of_shape :
    (s : Server) (fd : ℤ) (r : Shape)
    → shape_at s fd ≡ some r
    → (c : Client) × (find fd s.client_list ≡ some c) × (shape c ≡ r)
unfolding shape_at
client_of_shape s fd r e = elim (Option-cases (find fd s.client_list)) [
  | inl absent ↦ cc (ap (Option.map shape) absent)
  | inr (c, here) ↦ (c, here, ground arith)
]

pub Same-Known : {s t : Server} (fd : ℤ) → Same s t → Known s fd → Known t fd
Same-Known {s} {t} fd same (c, e) =
    Known_of_shape t fd (shape c) (same.clients fd ∙ shape_at-some s fd c e)

pub roll_at-some :
    (s : Server) (name : Text) (c : Channel)
    → find name s.channel_list ≡ some c
    → roll_at s name ≡ some (roll c)
unfolding roll_at
roll_at-some s name c e = ap (Option.map roll) e

pub channel_of_roll :
    (s : Server) (name : Text) (r : Roll)
    → roll_at s name ≡ some r
    → (c : Channel) × (find name s.channel_list ≡ some c) × (roll c ≡ r)
unfolding roll_at
channel_of_roll s name r e = elim (Option-cases (find name s.channel_list)) [
  | inl absent ↦ cc (ap (Option.map roll) absent)
  | inr (c, here) ↦ (c, here, ground arith)
]

pub Same-member :
    {s t : Server} (fd : ℤ) (name : Text) → Same s t → member t fd name ≡ member s fd name
unfolding member
Same-member fd name same = ap (count_of fd) (same.channels name)

pub Same-joined :
    {s t : Server} (fd : ℤ) (name : Text) → Same s t → joined t fd name ≡ joined s fd name
unfolding joined
Same-joined fd name same = ap (count_in name) (same.clients fd)

pub Same-WellFormed : {s t : Server} → Same s t → WellFormed s → WellFormed t
Same-WellFormed same w = record {
  linked = λ fd name. Same-member fd name same ∙ w.linked fd name ∙ sym (Same-joined fd name same);
  named = λ name c e. w.named name c (sym (same.channels name) ∙ e);
  keyed = λ fd c e. w.keyed fd c (sym (same.clients fd) ∙ e);
  outside = λ fd c e. w.outside fd c (sym (same.clients fd) ∙ e);
  once = λ fd name. rw (Same-joined fd name same) (w.once fd name);
  nicks = λ i j a b p q. w.nicks i j a b (sym (same.clients i) ∙ p) (sym (same.clients j) ∙ q);
  distinct = λ fd. rw same.same_keys (w.distinct fd);
}

-- A member of a channel is a client of the server.
pub Known_of_member :
    (s : Server) (fd : ℤ) (name : Text) (c : Channel)
    → WellFormed s
    → find name s.channel_list ≡ some c
    → count fd c.client_fd_list ≢ 0
    → Known s fd
unfolding member joined
Known_of_member s fd name c w e listed = elim (Option-cases (shape_at s fd)) [
  | inl absent ↦ absurd (
      listed (
        sym (ap (count_of fd) (roll_at-some s name c e))
        ∙ w.linked fd name
        ∙ ap (count_in name) absent))
  | inr (shape, here) ↦ Known_of_shape s fd shape here
]

-- A channel that a client lists is in the table.
pub channel_of_joined :
    (s : Server) (fd : ℤ) (name : Text)
    → WellFormed s
    → joined s fd name ≢ 0
    → (c : Channel) × (find name s.channel_list ≡ some c)
unfolding member roll_at
channel_of_joined s fd name w listed = elim (Option-cases (find name s.channel_list)) [
  | inl absent ↦
      absurd (listed (sym (w.linked fd name) ∙ ap (λ o. count_of fd (Option.map roll o)) absent))
  | inr here ↦ here
]

-- A channel is filed under its name.
pub channel_name_lem :
    (s : Server) (name : Text) (c : Channel)
    → WellFormed s
    → find name s.channel_list ≡ some c
    → c.channel_name ≡ name
channel_name_lem s name c w e = w.named name (roll c) (roll_at-some s name c e)
