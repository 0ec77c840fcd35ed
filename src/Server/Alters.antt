-- ===== src/Server/Alters.antt =====
-- The writes to a client that keep the list of its channels, and its removal when the list is empty.
use mathlib.Core.Option
use irc_protocol_server.Base.{
  ℤ, int_key, Text, text_key, ◌==◌, ◌≡◌, ◌≢◌, refl, sym, ◌∙◌, ap, ◌⊎◌, inl, inr, false, some, [],
  count, find, push_back, erase_key-update, keys-update, find-update, Bool-cases, arith,
}
use irc_protocol_server.Client.{Client, reset_client, set_nickname}
use irc_protocol_server.Server.State.{Server}
use irc_protocol_server.Server.Tables.{dismiss}
use irc_protocol_server.Server.Ensures.{Ensures, Ensures-bind, Ensures-modify}
use irc_protocol_server.Server.Links.{
  Shape, shape, shape_at, roll_at, joined, member, registered, DistinctNicks, WellFormed, Known,
}
use irc_protocol_server.Server.Quiet.{modify_client-Ensures}
use irc_protocol_server.Server.Counts.{put_client}
use irc_protocol_server.Server.Changes.{DistinctNicks-old, put_client-old}
use irc_protocol_server.Server.Entries.{erase-WellFormed}

-- `dismiss` of a client in no channel
pub dismiss-WellFormed :
    (s : Server) (fd : ℤ)
    → WellFormed s
    → Known s fd
    → ((n : Text) → joined s fd n ≡ 0)
    → Ensures (dismiss fd) s (λ _. WellFormed)
unfolding dismiss
dismiss-WellFormed s fd w known out =
    Ensures-bind {Q = λ _ t. t ≡ put_client fd reset_client s} _ _ s
      (modify_client-Ensures fd _ s known refl)
      λ _ t e. rw e (
        Ensures-modify _ (put_client fd reset_client s) (
          rw (erase_key-update fd reset_client s.client_list)
            (erase-WellFormed s w fd out s.sent (push_back s.closed fd))))

pub nothing-joined :
    (s : Server) (fd : ℤ) (c : Client)
    → find fd s.client_list ≡ some c
    → c.channel_list ≡ []
    → (n : Text) → joined s fd n ≡ 0
unfolding joined shape_at count
nothing-joined s fd c here nothing n = ground (arith, here)

module _ (s : Server) (w : WellFormed s) (fd : ℤ) (c : Client)
    (here : find fd s.client_list ≡ some c) where
  -- A write that keeps the channels and the descriptor
  pub alter-WellFormed :
      (f : Client → Client)
      → (f c).channel_list ≡ c.channel_list
      → (f c).fd ≡ c.fd
      → (registered (shape (f c)) ≡ false → registered (shape c) ≡ false)
      → DistinctNicks (put_client fd f s)
      → WellFormed (put_client fd f s)
  unfolding member joined shape_at roll_at
  alter-WellFormed f channels fds out nicks = record {
    linked =
        λ j n. ground (arith, w.linked j n, find-update j fd f s.client_list, int_key.beq_iff fd j);
    named = w.named;
    keyed = λ j r e. ground (
      arith,
      w.keyed fd (shape c) (ap (Option.map shape) here),
      w.keyed j r,
      find-update j fd f s.client_list,
      int_key.beq_iff fd j,
      fds,
    );
    outside = λ j r e out'. ground (
      arith,
      w.outside j r,
      w.outside fd (shape c) (ap (Option.map shape) here),
      find-update j fd f s.client_list,
      int_key.beq_iff fd j,
      out,
    );
    once =
        λ j n. ground (arith, w.once j n, find-update j fd f s.client_list, int_key.beq_iff fd j);
    nicks = nicks;
    distinct = λ j. rw (keys-update fd f s.client_list) (w.distinct j);
  }

  -- The nickname stays.
  pub same-nicks :
      (f : Client → Client)
      → ((d : Client) → (f d).nick_name ≡ d.nick_name)
      → DistinctNicks (put_client fd f s)
  same-nicks f keep = DistinctNicks-old s (put_client fd f s) (put_client-old s fd f keep) w.nicks

  named_or_old :
      (name : Text) (j : ℤ) (r : Shape)
      → shape_at (put_client fd (set_nickname name) s) j ≡ some r
      → ((fd ≡ j) × (r.nick_name ≡ name)) ⊎ (shape_at s j ≡ some r)
  unfolding shape_at set_nickname
  named_or_old name j r e = elim (Bool-cases (fd == j)) [
    | inl new ↦ inl (
      ground (arith, int_key.beq_iff fd j),
      ground
          (arith, find-update j fd (set_nickname name) s.client_list, here, int_key.beq_iff fd j),
    )
    | inr old ↦ inr (ground (arith, find-update j fd (set_nickname name) s.client_list))
  ]

  -- The nickname becomes one that nobody has.
  pub fresh-nicks :
      (name : Text)
      → ((j : ℤ) (r : Shape) → shape_at s j ≡ some r → r.nick_name ≢ name)
      → DistinctNicks (put_client fd (set_nickname name) s)
  fresh-nicks name fresh i j a b p q same star = elim (named_or_old name i a p) [
    | inl (at_i, is_name) ↦ elim (named_or_old name j b q) [
      | inl (at_j, is_name') ↦ sym at_i ∙ at_j
      | inr old ↦ absurd (fresh j b old (sym same ∙ is_name))
    ]
    | inr old ↦ elim (named_or_old name j b q) [
      | inl (at_j, is_name') ↦ absurd (fresh i a old (same ∙ is_name'))
      | inr old' ↦ w.nicks i j a b old old' same star
    ]
  ]
