-- ===== src/Server/Entries.antt =====
-- The entries that come into the tables and go, and the invariant
use mathlib.Core.Option
use irc_protocol_server.Base.{
  ℤ, int_key, negsuc, Text, text_key, ◌==◌, ◌≡◌, refl, sym, ◌∙◌, ap, ◌⊎◌, inl, inr, true, none,
  some, List, [], count, find, insert, erase_key, find-insert, find-erase_key, if◌then◌else◌, arith,
  text, insert-Distinct, erase_key-Distinct, ◌≢◌, Bool-cases, Bool, Option,
}
use irc_protocol_server.Client.{Client}
use irc_protocol_server.Channel.{Channel, new_channel}
use irc_protocol_server.Server.State.{Server}
use irc_protocol_server.Server.Links.{Shape, shape, shape_at, roll_at, joined, member, WellFormed}
use irc_protocol_server.Server.Links.{DistinctNicks}
use irc_protocol_server.Server.Changes.{DistinctNicks-old}

nick_in_front :
    {b : Bool} (new : b ≡ true) (c : Client) (o : Option Client) (r : Shape)
    → Option.map shape (if b then some c else o) ≡ some r
    → r.nick_name ≡ c.nick_name
nick_in_front new c o r e = ground arith

module _ (s : Server) (w : WellFormed s) where
  erase-old :
      (fd j : ℤ) (r : Shape)
      → shape_at (record s { client_list = erase_key fd s.client_list }) j ≡ some r
      → (q : Shape) × (shape_at s j ≡ some q) × (q.nick_name ≡ r.nick_name)
  unfolding shape_at
  erase-old fd j r e = (r, ground (arith, find-erase_key j fd s.client_list), refl)

  -- A client that is in no channel is erased.
  pub erase-WellFormed :
      (fd : ℤ)
      → ((n : Text) → joined s fd n ≡ 0)
      → (sent : List (ℤ × Text)) (closed : List ℤ)
      → WellFormed
          (record s { client_list = erase_key fd s.client_list; sent = sent; closed = closed })
  unfolding member joined shape_at roll_at
  erase-WellFormed fd out sent closed = record {
    linked = λ j n.
        ground
          (arith, w.linked j n, out n, find-erase_key j fd s.client_list, int_key.beq_iff fd j);
    named = w.named;
    keyed = λ j r e. ground (arith, w.keyed j r, find-erase_key j fd s.client_list);
    outside = λ j r e out'. ground (arith, w.outside j r, find-erase_key j fd s.client_list);
    once = λ j n. ground (arith, w.once j n, find-erase_key j fd s.client_list);
    nicks =
        DistinctNicks-old s (record s { client_list = erase_key fd s.client_list })
          (λ j r e. erase-old fd j r e) w.nicks;
    distinct = erase_key-Distinct fd s.client_list w.distinct;
  }

  -- A channel with no member is deleted.
  pub remove-WellFormed :
      (name : Text) (ch : Channel)
      → find name s.channel_list ≡ some ch
      → ch.client_fd_list ≡ []
      → WellFormed (record s { channel_list = erase_key name s.channel_list })
  unfolding member joined shape_at roll_at count
  remove-WellFormed name ch there none_left = record {
    linked = λ j n.
        ground (arith, w.linked j n, find-erase_key n name s.channel_list, text_key.beq_iff name n);
    named = λ n r e. ground (arith, w.named n r, find-erase_key n name s.channel_list);
    keyed = w.keyed;
    outside = w.outside;
    once = w.once;
    nicks = w.nicks;
    distinct = w.distinct;
  }

  -- A new channel, still with no member
  pub insert-WellFormed :
      (name : Text) (fd : ℤ)
      → find name s.channel_list ≡ none
      → WellFormed (record s { channel_list = insert name (new_channel name fd) s.channel_list })
  unfolding member joined shape_at roll_at count new_channel
  insert-WellFormed name fd free = record {
    linked = λ j n. ground (
      arith,
      w.linked j n,
      find-insert n name (new_channel name fd) s.channel_list free,
      text_key.beq_iff name n,
    );
    named = λ n r e. ground (
      arith,
      w.named n r,
      find-insert n name (new_channel name fd) s.channel_list free,
      text_key.beq_iff name n,
    );
    keyed = w.keyed;
    outside = w.outside;
    once = w.once;
    nicks = w.nicks;
    distinct = w.distinct;
  }

  arrive-old :
      (fd : ℤ) (c : Client)
      → find fd s.client_list ≡ none
      → c.nick_name ≡ text "*"
      → (j : ℤ) (r : Shape)
      → shape_at (record s { client_list = insert fd c s.client_list }) j ≡ some r
      → r.nick_name ≢ text "*"
      → shape_at s j ≡ some r
  unfolding shape_at
  arrive-old fd c free star j r e named = elim (Bool-cases (fd == j)) [
    | inl new ↦ absurd (
        named (
          nick_in_front new c (find j s.client_list) r
            (ap (Option.map shape) (sym (find-insert j fd c s.client_list free)) ∙ e)
          ∙ star))
    | inr old ↦ ground (arith, find-insert j fd c s.client_list free)
  ]

  new-nicks :
      (fd : ℤ) (c : Client)
      → find fd s.client_list ≡ none
      → c.nick_name ≡ text "*"
      → DistinctNicks (record s { client_list = insert fd c s.client_list })
  new-nicks fd c free star i j a b p q same named =
      w.nicks i j a b (arrive-old fd c free star i a p named)
        (arrive-old fd c free star j b q (λ e. named (same ∙ e))) same named

  -- A new client, in no channel
  pub arrive-WellFormed :
      (fd : ℤ) (c : Client)
      → find fd s.client_list ≡ none
      → (c.fd ≡ fd) ⊎ (c.fd ≡ negsuc 0)
      → c.nick_name ≡ text "*"
      → c.channel_list ≡ []
      → WellFormed (record s { client_list = insert fd c s.client_list })
  unfolding member joined shape_at roll_at count
  arrive-WellFormed fd c free key star nothing = record {
    linked = λ j n.
        ground (arith, w.linked j n, find-insert j fd c s.client_list free, int_key.beq_iff fd j);
    named = w.named;
    keyed = λ j r e.
        ground (arith, w.keyed j r, find-insert j fd c s.client_list free, int_key.beq_iff fd j);
    outside = λ j r e out. ground (arith, w.outside j r, find-insert j fd c s.client_list free);
    once = λ j n. ground (arith, w.once j n, find-insert j fd c s.client_list free);
    nicks = new-nicks fd c free star;
    distinct = insert-Distinct fd c s.client_list w.distinct;
  }
