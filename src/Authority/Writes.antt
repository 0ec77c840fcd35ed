-- ===== src/Authority/Writes.antt =====
-- The writes to the table of channels, and what the client at `fd` must leave of the channel `name`
use mathlib.Core.Option
use irc_protocol_server.Base.{
  ℕ, ℤ, int_key, nat_key, Text, text_key, ◌==◌, ◌≡◌, ◌≢◌, refl, sym, ◌∙◌, ap, inl, inr, false,
  Option, none, some, List, [], ◌∷◌, contains, erase, push_back, find, find-update, Option-cases,
  Bool-cases, if◌then◌else◌, arith,
}
use irc_protocol_server.Channel.{
  Channel, diff_operator, remove_operator_fd, remove_fd_list_client, remove_invite_fd,
  append_fd_list_client, set_mode, set_key, set_limit, set_topic, append_fd_list_invite,
}
use irc_protocol_server.Server.{Server, modify_channel}
use irc_protocol_server.Server.Counts.{put_channel}
use irc_protocol_server.Server.Yields.{Yields-modify_channel}
use irc_protocol_server.Server.Obeys.{Obeys, OfChannels}
use irc_protocol_server.Authority.{without, guarded, Held, Governed}

without-erase : (fd : ℤ) (xs : List ℤ) → without fd (erase fd xs) ≡ without fd xs
unfolding without erase
without-erase fd [] = refl
without-erase fd (x ∷ xs) = ground (arith, without-erase fd xs)

without-push_back : (fd : ℤ) (xs : List ℤ) → without fd (push_back xs fd) ≡ without fd xs
unfolding without
without-push_back fd [] = ground (arith, int_key.beq_iff fd fd)
without-push_back fd (x ∷ xs) = ground (arith, without-push_back fd xs)

erase_absent : (fd : ℤ) (xs : List ℤ) → contains fd xs ≡ false → erase fd xs ≡ xs
unfolding contains erase
erase_absent fd [] out = refl
erase_absent fd (x ∷ xs) out = ground (arith, erase_absent fd xs)

-- A write that leaves the name of the channel
abbrev pub KeepsName : (Channel → Channel) → Type 0
KeepsName f = (c : Channel) → (f c).channel_name ≡ c.channel_name

-- What a client may write of a channel that it is not an operator of
abbrev pub IsOpen : ℤ → (Channel → Channel) → Type 0
IsOpen fd f =
    KeepsName f × ((c : Channel) → diff_operator fd c ≡ false → guarded fd (f c) ≡ guarded fd c)

pub remove_fd_list_client-IsOpen : (fd : ℤ) → IsOpen fd (remove_fd_list_client fd)
unfolding remove_fd_list_client guarded
remove_fd_list_client-IsOpen fd = (
  λ c. refl,
  λ c out.
      ap
        (λ members. record c {
          client_fd_list = members;
          invite_fd_list = without fd c.invite_fd_list;
          topic = if c.topic_status then c.topic else [];
        })
        (without-erase fd c.client_fd_list),
)

pub append_fd_list_client-IsOpen : (fd : ℤ) → IsOpen fd (append_fd_list_client fd)
unfolding append_fd_list_client guarded
append_fd_list_client-IsOpen fd = (
  λ c. refl,
  λ c out.
      ap
        (λ members. record c {
          client_fd_list = members;
          invite_fd_list = without fd c.invite_fd_list;
          topic = if c.topic_status then c.topic else [];
        })
        (without-push_back fd c.client_fd_list),
)

pub remove_invite_fd-IsOpen : (fd : ℤ) → IsOpen fd (remove_invite_fd fd)
unfolding remove_invite_fd guarded
remove_invite_fd-IsOpen fd = (
  λ c. refl,
  λ c out.
      ap
        (λ invited. record c {
          client_fd_list = without fd c.client_fd_list;
          invite_fd_list = invited;
          topic = if c.topic_status then c.topic else [];
        })
        (without-erase fd c.invite_fd_list),
)

pub remove_operator_fd-IsOpen : (fd : ℤ) → IsOpen fd (remove_operator_fd fd)
unfolding remove_operator_fd guarded diff_operator
remove_operator_fd-IsOpen fd = (
  λ c. refl,
  λ c out.
      ap
        (λ operators. record c {
          operator_fd_list = operators;
          client_fd_list = without fd c.client_fd_list;
          invite_fd_list = without fd c.invite_fd_list;
          topic = if c.topic_status then c.topic else [];
        })
        (erase_absent fd c.operator_fd_list out),
)

pub set_mode-KeepsName : (letter sign : ℕ) (fd : ℤ) → KeepsName (set_mode letter sign fd)
unfolding set_mode
set_mode-KeepsName letter sign fd c = ground arith

pub set_key-KeepsName : (key : Text) → KeepsName (set_key key)
unfolding set_key
set_key-KeepsName key c = refl

pub set_limit-KeepsName : (limit : ℕ) → KeepsName (set_limit limit)
unfolding set_limit
set_limit-KeepsName limit c = refl

pub set_topic-KeepsName : (topic : Text) → KeepsName (set_topic topic)
unfolding set_topic
set_topic-KeepsName topic c = refl

pub append_fd_list_invite-KeepsName : (fd : ℤ) → KeepsName (append_fd_list_invite fd)
unfolding append_fd_list_invite
append_fd_list_invite-KeepsName fd c = refl

pub remove_fd_list_client-KeepsName : (fd : ℤ) → KeepsName (remove_fd_list_client fd)
unfolding remove_fd_list_client
remove_fd_list_client-KeepsName fd c = refl

pub remove_operator_fd-KeepsName : (fd : ℤ) → KeepsName (remove_operator_fd fd)
unfolding remove_operator_fd
remove_operator_fd-KeepsName fd c = refl

-- An operator of the one is an operator of the other.
pub guarded-operator :
    (fd who : ℤ) (c d : Channel)
    → guarded fd c ≡ guarded fd d
    → diff_operator who c ≡ diff_operator who d
unfolding guarded diff_operator
guarded-operator fd who c d e = ap (λ (g : Channel). contains who g.operator_fd_list) e

module _ (fd : ℤ) (name : Text) (ch : Channel) (out : diff_operator fd ch ≡ false)
    (Gone : Type 0) where
  pub Governed-OfChannels : OfChannels (Governed fd name (guarded fd ch) Gone)
  Governed-OfChannels s t e g = record {
    named = λ n c there. g.named n c (ap (find n) (sym e) ∙ there);
    held = rw e g.held;
  }

  -- The client is no operator of what it must leave.
  pub still_out : (c : Channel) → guarded fd c ≡ guarded fd ch → diff_operator fd c ≡ false
  still_out c same = guarded-operator fd fd c ch same ∙ out

  Held-put :
      (n : Text) (f : Channel → Channel) (o : Option Channel)
      → ((c : Channel)
          → o ≡ some c
          → guarded fd c ≡ guarded fd ch
          → n ≡ name
          → guarded fd (f c) ≡ guarded fd ch)
      → Held fd (guarded fd ch) Gone o
      → Held fd (guarded fd ch) Gone (if n == name then Option.map f o else o)
  Held-put n f none h held = elim (Bool-cases (n == name)) [
    | inl here ↦ rw here held
    | inr elsewhere ↦ rw elsewhere held
  ]
  Held-put n f (some c) h held = elim (Bool-cases (n == name)) [
    | inl here ↦ rw here (h c refl held (ground (arith, text_key.beq_iff n name)))
    | inr elsewhere ↦ rw elsewhere held
  ]

  pub put-Governed :
      (n : Text) (f : Channel → Channel) (s : Server)
      → KeepsName f
      → ((c : Channel)
          → find name s.channel_list ≡ some c
          → guarded fd c ≡ guarded fd ch
          → n ≡ name
          → guarded fd (f c) ≡ guarded fd ch)
      → Governed fd name (guarded fd ch) Gone s
      → Governed fd name (guarded fd ch) Gone (put_channel n f s)
  put-Governed n f s keep h g = record {
    named = λ m d there. elim (Option-cases (find m s.channel_list)) [
      | inl absent ↦ ground (arith, find-update m n f s.channel_list)
      | inr (c, here) ↦ ground (arith, find-update m n f s.channel_list, keep c, g.named m c here)
    ];
    held =
        rw (find-update name n f s.channel_list) (Held-put n f (find name s.channel_list) h g.held);
  }

  -- A write that is open to the client, to any channel
  pub open-Obeys :
      (n : Text) (f : Channel → Channel)
      → IsOpen fd f
      → Obeys (Governed fd name (guarded fd ch) Gone) (modify_channel n f)
  open-Obeys n f free = record {
    run = λ s g. Yields-modify_channel n f s λ c there.
        put-Governed n f s free.0 (λ d here same at. free.1 d (still_out d same) ∙ same) g;
  }

  -- Any write to another channel
  pub other-Obeys :
      (n : Text) (f : Channel → Channel)
      → n ≢ name
      → KeepsName f
      → Obeys (Governed fd name (guarded fd ch) Gone) (modify_channel n f)
  other-Obeys n f other keep = record {
    run = λ s g.
        Yields-modify_channel n f s
          λ c there. put-Governed n f s keep (λ d here same at. absurd (other at)) g;
  }
