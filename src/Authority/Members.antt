-- ===== src/Authority/Members.antt =====
-- JOIN, PART, QUIT (IRC_PROTOCOL_SERVER/command) and `Server::disconnectClient`: what the client at
-- `fd` must leave of the channel `name` whose operator it is not
use irc_protocol_server.Base.{
  ℤ, int_key, nat_key, Text, text_key, ◌==◌, ◌≡◌, refl, sym, ◌∙◌, ap, inl, inr, true, false, Option,
  none, some, List, [], ◌∷◌, length, find, erase_key, find-erase_key, Bool-cases, arith,
}
use irc_protocol_server.Channel.{Channel, diff_operator}
use irc_protocol_server.Server.{Server, remove_channel, disconnect_channel, disconnect_client}
use irc_protocol_server.Server.Yields.{Yields-pure, Yields-when, Yields-at_channel, Yields-modify}
use irc_protocol_server.Server.Obeys.{
  Obeys, Obeys-bind, Obeys-option, Obeys-pure, Obeys-for_ever, Obeys-modify, Obeys-when,
  Obeys-for_each, Obeys-find_channel, Obeys-lookup_client, Obeys-client_at, OfChannels,
  Obeys-modify_client, Obeys-index_client, Obeys-dismiss,
}
use irc_protocol_server.Util.Obeys.{message_all_channel-Obeys}
use irc_protocol_server.Command.Part.{leave_channel, drop_if_empty, not_joined, part_channel, part}
use irc_protocol_server.Command.Quit.{quit_channel, quit}
use irc_protocol_server.Authority.{without, guarded, Held, Governed}
use irc_protocol_server.Authority.Writes.{
  Governed-OfChannels, open-Obeys, remove_fd_list_client-IsOpen, remove_invite_fd-IsOpen,
  remove_operator_fd-IsOpen,
}

no-members : {A : Type 0} (xs : List A) → (length xs == 0) ≡ true → xs ≡ []
no-members [] e = refl
no-members (x ∷ xs) e = ground arith

module _ (fd : ℤ) (name : Text) (ch : Channel) (out : diff_operator fd ch ≡ false)
    (Gone : Type 0) where
  abbrev pub Kept : Server → Type 0
  Kept = Governed fd name (guarded fd ch) Gone

  pub idle : OfChannels Kept
  idle = Governed-OfChannels fd name ch out Gone

  leave_channel-Obeys : (n : Text) → Obeys Kept (leave_channel fd n)
  unfolding leave_channel
  leave_channel-Obeys n =
      Obeys-bind (open-Obeys fd name ch out Gone n _ (remove_fd_list_client-IsOpen fd))
        λ _. open-Obeys fd name ch out Gone n _ (remove_operator_fd-IsOpen fd)

  disconnect_channel-Obeys : (n : Text) → Obeys Kept (disconnect_channel fd n)
  unfolding disconnect_channel
  disconnect_channel-Obeys n =
      Obeys-bind (open-Obeys fd name ch out Gone n _ (remove_fd_list_client-IsOpen fd)) λ _.
        Obeys-bind (open-Obeys fd name ch out Gone n _ (remove_operator_fd-IsOpen fd))
          λ _. open-Obeys fd name ch out Gone n _ (remove_invite_fd-IsOpen fd)

  pub disconnect_client-Obeys : Obeys Kept (disconnect_client fd)
  unfolding disconnect_client
  disconnect_client-Obeys = Obeys-bind (Obeys-index_client idle fd) λ client.
      Obeys-bind (Obeys-for_each client.channel_list disconnect_channel-Obeys)
        λ _. Obeys-modify _ λ s g. idle s _ refl g

  -- The channel itself, while it is there
  pub held_at :
      (n : Text) (c : Channel) (s : Server)
      → find n s.channel_list ≡ some c
      → n ≡ name
      → Kept s
      → guarded fd c ≡ guarded fd ch
  held_at n c s there at g = rw (ap (λ m. find m s.channel_list) (sym at) ∙ there) at (g.held)

  module _ (empty : without fd ch.client_fd_list ≡ [] → Gone) where
    -- A channel may go when the client was the last in it.
    removed-Held :
        (n : Text) (c : Channel) (s : Server)
        → find n s.channel_list ≡ some c
        → c.client_fd_list ≡ []
        → Kept s
        → Held fd (guarded fd ch) Gone (find name (erase_key n s.channel_list))
    unfolding guarded without
    removed-Held n c s there nobody g = elim (Bool-cases (n == name)) [
      | inl here ↦
          rw (find-erase_key name n s.channel_list, here)
            (empty (
              sym (
                ap (λ (d : Channel). d.client_fd_list)
                  (held_at n c s there (ground (arith, text_key.beq_iff n name)) g))
              ∙ ap (without fd) nobody))
      | inr elsewhere ↦ rw (find-erase_key name n s.channel_list, elsewhere) (g.held)
    ]

    removed-Kept :
        (n : Text) (c : Channel) (s : Server)
        → find n s.channel_list ≡ some c
        → c.client_fd_list ≡ []
        → Kept s
        → Kept (record s { channel_list = erase_key n s.channel_list })
    removed-Kept n c s there nobody g = record {
      named = λ m d here. ground (arith, find-erase_key m n s.channel_list, g.named m d);
      held = removed-Held n c s there nobody g;
    }

    drop_if_empty-Obeys : (n : Text) → Obeys Kept (drop_if_empty n)
    unfolding drop_if_empty remove_channel
    drop_if_empty-Obeys n = record {
      run = λ s g. Yields-at_channel s n _ λ c there.
          Yields-when _ _ _ s
            (λ nobody. Yields-modify _ s (
              rw (g.named n c there)
                (removed-Kept n c s there (no-members c.client_fd_list nobody) g)))
            λ _. Yields-pure tt s g;
    }

    not_joined-Obeys : (n : Text) (found : Option Channel) → Obeys Kept (not_joined fd n found)
    not_joined-Obeys n none = Obeys-modify_client idle fd _
    not_joined-Obeys n (some c) = Obeys-modify_client idle fd _

    part_channel-Obeys : (message n : Text) → Obeys Kept (part_channel fd message n)
    unfolding part_channel
    part_channel-Obeys message n = Obeys-bind (Obeys-client_at fd) λ client.
        Obeys-when _
          (Obeys-bind (message_all_channel-Obeys idle fd n _ _) λ _.
            Obeys-bind (leave_channel-Obeys n)
              λ _. Obeys-bind (Obeys-modify_client idle fd _) λ _. drop_if_empty-Obeys n)
          (Obeys-bind (Obeys-find_channel n) λ found. not_joined-Obeys n found)

    pub part-Obeys : (words : List Text) → Obeys Kept (part fd words)
    unfolding part
    part-Obeys [] = Obeys-modify_client idle fd _
    part-Obeys (verb ∷ []) = Obeys-modify_client idle fd _
    part-Obeys (verb ∷ names ∷ words) = Obeys-for_each _ λ n. part_channel-Obeys _ n

    quit_channel-Obeys : (message n : Text) → Obeys Kept (quit_channel fd message n)
    unfolding quit_channel
    quit_channel-Obeys message n = Obeys-option _ (Obeys-find_channel n) Obeys-for_ever λ c.
        Obeys-bind (leave_channel-Obeys c.channel_name) λ _.
          Obeys-bind (message_all_channel-Obeys idle fd _ _ _)
            λ _. drop_if_empty-Obeys c.channel_name

    pub quit-Obeys : (words : List Text) → Obeys Kept (quit fd words)
    unfolding quit
    quit-Obeys words = Obeys-option _ (Obeys-lookup_client fd) (Obeys-pure tt) λ client.
        Obeys-bind (Obeys-for_each client.channel_list λ n. quit_channel-Obeys _ n)
          λ _. Obeys-dismiss idle fd
