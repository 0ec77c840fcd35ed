-- ===== src/Server/Changes.antt =====
-- The writes that move a client into a channel or out of one, and the invariant
use mathlib.Core.Option
use irc_protocol_server.Base.{
  ◌+◌, ◌-◌, ℤ, int_key, negsuc, Text, text_key, ◌≡◌, refl, sym, ◌∙◌, ap, ◌⊎◌, inl, inr, true, false,
  some, [], erase, find, find-update, arith, Option-cases, keys-update, ◌≤◌,
}
use irc_protocol_server.Client.{Client, append_channel_list, delete_channel}
use irc_protocol_server.Channel.{Channel, append_fd_list_client, remove_fd_list_client}
use irc_protocol_server.Server.State.{Server}
use irc_protocol_server.Server.Links.{
  Shape, shape, shape_at, Roll, roll, roll_at, joined, member, WellFormed, registered,
}
use irc_protocol_server.Server.Links.{DistinctNicks}
use irc_protocol_server.Server.Counts.{
  put_client, put_channel, hit, joined-append, joined-delete, member-append, member-remove,
}

-- A table whose clients have the nicknames that they had
pub DistinctNicks-old :
    (s t : Server)
    → ((j : ℤ) (r : Shape)
        → shape_at t j ≡ some r
        → (q : Shape) × (shape_at s j ≡ some q) × (q.nick_name ≡ r.nick_name))
    → DistinctNicks s
    → DistinctNicks t
DistinctNicks-old s t old nicks i j a b p q same star =
    let (a', p', ea) = old i a p in
    let (b', q', eb) = old j b q in
    nicks i j a' b' p' q' (ea ∙ same ∙ sym eb) (λ e. star (sym ea ∙ e))

pub put_client-old :
    (s : Server) (fd : ℤ) (f : Client → Client)
    → ((c : Client) → (f c).nick_name ≡ c.nick_name)
    → (j : ℤ) (r : Shape) → shape_at (put_client fd f s) j ≡ some r
    → (q : Shape) × (shape_at s j ≡ some q) × (q.nick_name ≡ r.nick_name)
unfolding shape_at
put_client-old s fd f keep j r e = elim (Option-cases (find j s.client_list)) [
  | inl absent ↦ ground (arith, find-update j fd f s.client_list)
  | inr (c, here) ↦ (
    shape c,
    ap (Option.map shape) here,
    ground (arith, find-update j fd f s.client_list, keep c),
  )
]

-- A write to the channels of a client only
abbrev pub OnlyChannels : (Client → Client) → Type 0
OnlyChannels f = (c : Client) → shape (f c) ≡ record (shape c) { channel_list = (f c).channel_list }

-- A channel's name, a client's descriptor, and "not registered, no channel" survive such writes.
module _ (s : Server) (w : WellFormed s) where
  named-put :
      (name : Text) (f : Channel → Channel)
      → ((c : Channel) → (f c).channel_name ≡ c.channel_name)
      → (n : Text) (r : Roll) → roll_at (put_channel name f s) n ≡ some r
      → r.channel_name ≡ n
  unfolding roll_at
  named-put name f keep n r e = elim (Option-cases (find n s.channel_list)) [
    | inl absent ↦ ground (arith, find-update n name f s.channel_list)
    | inr (c, here) ↦ ground (
      arith,
      find-update n name f s.channel_list,
      keep c,
      w.named n (roll c) (ap (Option.map roll) here),
    )
  ]

  keyed-put :
      (fd : ℤ) (f : Client → Client)
      → ((c : Client) → (f c).fd ≡ c.fd)
      → (j : ℤ) (r : Shape) → shape_at (put_client fd f s) j ≡ some r
      → (r.fd ≡ j) ⊎ (r.fd ≡ negsuc 0)
  unfolding shape_at
  keyed-put fd f keep j r e = elim (Option-cases (find j s.client_list)) [
    | inl absent ↦ ground (arith, find-update j fd f s.client_list)
    | inr (c, here) ↦ ground (
      arith,
      find-update j fd f s.client_list,
      keep c,
      w.keyed j (shape c) (ap (Option.map shape) here),
    )
  ]

  outside-put :
      (fd : ℤ) (f : Client → Client)
      → OnlyChannels f
      → ((c : Client)
          → find fd s.client_list ≡ some c
          → registered (shape c) ≡ false
          → (f c).channel_list ≡ [])
      → (j : ℤ) (r : Shape) → shape_at (put_client fd f s) j ≡ some r
      → registered r ≡ false
      → r.channel_list ≡ []
  unfolding shape_at
  outside-put fd f only keep j r e out = elim (Option-cases (find j s.client_list)) [
    | inl absent ↦ ground (arith, find-update j fd f s.client_list)
    | inr (c, here) ↦ ground (
      arith,
      find-update j fd f s.client_list,
      int_key.beq_iff fd j,
      ap registered (only c),
      keep c,
      w.outside j (shape c) (ap (Option.map shape) here),
    )
  ]

  -- One write to a client and one to a channel, with the same effect on both counts
  both-WellFormed :
      (fd : ℤ) (f : Client → Client) (name : Text) (g : Channel → Channel)
      → OnlyChannels f
      → ((c : Client)
          → find fd s.client_list ≡ some c
          → registered (shape c) ≡ false
          → (f c).channel_list ≡ [])
      → ((c : Channel) → (g c).channel_name ≡ c.channel_name)
      → ((j : ℤ) (n : Text) → member (put_channel name g s) j n ≡ joined (put_client fd f s) j n)
      → ((j : ℤ) (n : Text) → joined (put_client fd f s) j n ≤ 1)
      → WellFormed (put_channel name g (put_client fd f s))
  unfolding member joined shape_at roll_at
  both-WellFormed fd f name g only keeps_out keeps_name counts once = record {
    linked = counts;
    named = named-put name g keeps_name;
    keyed = keyed-put fd f (λ c. ap (λ (r : Shape). r.fd) (only c));
    outside = outside-put fd f only keeps_out;
    once = once;
    nicks =
        DistinctNicks-old s (put_client fd f s)
          (put_client-old s fd f (λ c. ap (λ (r : Shape). r.nick_name) (only c))) w.nicks;
    distinct = λ j. rw (keys-update fd f s.client_list) (w.distinct j);
  }

  -- A registered client enters a channel that it is not in.
  pub enter-WellFormed :
      (fd : ℤ) (name : Text) (c : Client) (ch : Channel)
      → find fd s.client_list ≡ some c
      → registered (shape c) ≡ true
      → find name s.channel_list ≡ some ch
      → member s fd name ≡ 0
      → WellFormed
          (put_channel name (append_fd_list_client fd) (put_client fd (append_channel_list name) s))
  enter-WellFormed fd name c ch here inside there new =
      both-WellFormed fd (append_channel_list name) name (append_fd_list_client fd)
        (unfold append_channel_list in λ d. refl)
        (unfold append_channel_list in λ d e out. ground arith)
        (unfold append_fd_list_client in λ d. refl)
        (λ j n.
          member-append s fd name ch there j n
          ∙ ap (λ k. k + hit fd name j n) (w.linked j n)
          ∙ sym (joined-append s fd name (c, here) j n))
        λ j n. ground (
          arith,
          joined-append s fd name (c, here) j n,
          w.once j n,
          w.linked j n,
          int_key.beq_iff fd j,
          text_key.beq_iff name n,
        )

  delete-nil :
      (fd : ℤ) (name : Text) (d : Client)
      → find fd s.client_list ≡ some d
      → registered (shape d) ≡ false
      → (delete_channel name d).channel_list ≡ []
  unfolding delete_channel shape_at erase
  delete-nil fd name d e out = ground (arith, w.outside fd (shape d) (ap (Option.map shape) e))

  -- A client leaves a channel.
  pub leave-WellFormed :
      (fd : ℤ) (name : Text)
      → WellFormed
          (put_channel name (remove_fd_list_client fd) (put_client fd (delete_channel name) s))
  leave-WellFormed fd name =
      both-WellFormed fd (delete_channel name) name (remove_fd_list_client fd)
        (unfold delete_channel in λ d. refl) (λ d e out. delete-nil fd name d e out)
        (unfold remove_fd_list_client in λ d. refl)
        (λ j n.
          member-remove s fd name j n
          ∙ ap (λ k. k - hit fd name j n) (w.linked j n)
          ∙ sym (joined-delete s fd name j n))
        λ j n. omega (arith, joined-delete s fd name j n, w.once j n)
