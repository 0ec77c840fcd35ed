-- ===== src/Authority/Entering.antt =====
-- IRC_PROTOCOL_SERVER/command/Join.cpp: what the client at `fd` must leave of the channel `name`
-- whose operator it is not. That channel is there, so JOIN does not make it anew.
use irc_protocol_server.Base.{
  ℕ, ℤ, int_key, Text, text_key, ◌==◌, ◌≡◌, ◌≢◌, sym, ◌∙◌, ap, inl, inr, Bool, true, false, none,
  List, [], ◌∷◌, find, insert, find-insert, Bool-cases, arith,
}
use irc_protocol_server.Channel.{Channel, new_channel, diff_operator, append_fd_list_client}
use irc_protocol_server.Server.{
  Server, pure, ◌>>=◌, modify_client, modify_channel, append_new_channel,
}
use irc_protocol_server.Client.{Client, append_channel_list}
use irc_protocol_server.Server.Yields.{Yields, Yields-bind, Yields-modify, Yields-with_channel}
use irc_protocol_server.Server.Obeys.{
  Obeys, Obeys-bind, Obeys-pure, Obeys-undefined, Obeys-when, Obeys-client_at, Obeys-modify_client,
}
use irc_protocol_server.Util.Obeys.{
  message_all_channel-Obeys, topic_message-Obeys, name_list_msg-Obeys,
}
use irc_protocol_server.Command.Join.{
  Admission, admitted, already_on_channel, no_keys, bad_key, bad_iterator, invite_only, full, enter,
  found_channel, act_on, join_channel, join_channels, next_key, join, admission,
}
use irc_protocol_server.Authority.Writes.{open-Obeys, append_fd_list_client-IsOpen}
use irc_protocol_server.Authority.Members.{Kept, idle}

module _ (fd : ℤ) (name : Text) (ch : Channel) (out : diff_operator fd ch ≡ false) where
  abbrev pub Stands : Server → Type 0
  Stands = Kept fd name ch out ⊥

  -- A name that is free is another one.
  pub elsewhere : (n : Text) (s : Server) → find n s.channel_list ≡ none → Stands s → n ≢ name
  elsewhere n s free g at = rw (ap (λ m. find m s.channel_list) (sym at) ∙ free) at (g.held)

  inserted-Stands :
      (n : Text) (s : Server)
      → find n s.channel_list ≡ none
      → Stands s
      → Stands (record s { channel_list = insert n (new_channel n fd) s.channel_list })
  unfolding new_channel
  inserted-Stands n s free g = record {
    named = λ m d here. ground (
      arith,
      find-insert m n (new_channel n fd) s.channel_list free,
      text_key.beq_iff n m,
      g.named m d,
    );
    held = elim (Bool-cases (n == name)) [
      | inl at ↦ absurd (elsewhere n s free g (ground (arith, text_key.beq_iff n name)))
      | inr other ↦ rw (find-insert name n (new_channel n fd) s.channel_list free, other) (g.held)
    ];
  }

  member-Obeys : (n : Text) → Obeys Stands (modify_channel n (append_fd_list_client fd))
  member-Obeys n = open-Obeys fd name ch out ⊥ n _ (append_fd_list_client-IsOpen fd)

  pub reply-Obeys :
      (f : Client → Client) (b : Bool) → Obeys Stands (modify_client fd f >>= λ _. pure b)
  reply-Obeys f b = Obeys-bind (Obeys-modify_client (idle fd name ch out ⊥) fd f) λ _. Obeys-pure b

  act_on-Obeys :
      (verdict : Admission) (n : Text) (channel : Channel)
      → Obeys Stands (act_on verdict fd n channel)
  unfolding act_on enter
  act_on-Obeys admitted n channel =
      let of = idle fd name ch out ⊥ in
      Obeys-bind (Obeys-bind (Obeys-modify_client of fd _) λ _. member-Obeys n) λ _.
        Obeys-bind (message_all_channel-Obeys of fd _ _ _) λ _.
          Obeys-bind (topic_message-Obeys of fd _)
            λ _. Obeys-bind (name_list_msg-Obeys of fd n) λ _. Obeys-pure true
  act_on-Obeys already_on_channel n channel =
      Obeys-bind (Obeys-client_at fd) λ client. reply-Obeys _ true
  act_on-Obeys no_keys n channel = reply-Obeys _ false
  act_on-Obeys bad_key n channel = reply-Obeys _ true
  act_on-Obeys bad_iterator n channel = Obeys-undefined
  act_on-Obeys invite_only n channel = reply-Obeys _ true
  act_on-Obeys full n channel = reply-Obeys _ true

  -- The rest of the round, where the channel was made
  founded-Obeys :
      (n : Text)
      → Obeys Stands (
          modify_channel n (append_fd_list_client fd) >>= λ _.
          modify_client fd (append_channel_list n))
  founded-Obeys n =
      Obeys-bind (member-Obeys n) λ _. Obeys-modify_client (idle fd name ch out ⊥) fd _

  found_channel-Yields :
      (n : Text) (s : Server)
      → find n s.channel_list ≡ none
      → Stands s
      → Yields (found_channel fd n) s (λ _. Stands)
  unfolding found_channel append_new_channel
  found_channel-Yields n s free g =
      Yields-bind _ _ s (Yields-modify {Q = λ _. Stands} _ s (inserted-Stands n s free g))
        λ _ t g'. (founded-Obeys n).run t g'

  join_channel-Obeys :
      (size : ℕ) (keys : List Text) (at : ℕ) (n : Text)
      → Obeys Stands (join_channel fd size keys at n)
  unfolding join_channel
  join_channel-Obeys size keys at n =
      let of = idle fd name ch out ⊥ in
      Obeys-when _
        (record {
          run = λ s g.
              Yields-with_channel s n _
                (λ free. Yields-bind _ _ s (found_channel-Yields n s free g) λ _ t g'.
                  (Obeys-bind (message_all_channel-Obeys of fd n _ _)
                      λ _. Obeys-bind (name_list_msg-Obeys of fd n) λ _. Obeys-pure true).run
                    t g')
                λ c there. (act_on-Obeys (admission fd size keys at c) n c).run s g;
        })
        (reply-Obeys _ true)

  join_channels-Obeys :
      (size : ℕ) (keys : List Text) (at : ℕ) (names : List Text)
      → Obeys Stands (join_channels fd size keys at names)
  unfolding join_channels
  join_channels-Obeys size keys at [] = Obeys-pure tt
  join_channels-Obeys size keys at (n ∷ names) =
      Obeys-bind (join_channel-Obeys size keys at n) λ go_on.
        Obeys-when go_on (join_channels-Obeys size keys (next_key size keys at n) names)
          (Obeys-pure tt)

  pub join-Obeys : (words : List Text) → Obeys Stands (join fd words)
  unfolding join
  join-Obeys [] = Obeys-modify_client (idle fd name ch out ⊥) fd _
  join-Obeys (verb ∷ []) = Obeys-modify_client (idle fd name ch out ⊥) fd _
  join-Obeys (verb ∷ names ∷ words) = join_channels-Obeys _ _ 0 _
