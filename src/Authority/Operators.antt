-- ===== src/Authority/Operators.antt =====
-- KICK, TOPIC and INVITE (IRC_PROTOCOL_SERVER/command) of a client that is no operator of the channel
-- `name`
use irc_protocol_server.Base.{
  ℤ, int_key, nat_key, Text, text_key, ◌≡◌, ◌≢◌, refl, Bool, true, false, Option, none, some, List,
  [], ◌∷◌, drop, contains, find, arith,
}
use irc_protocol_server.Client.{Client}
use irc_protocol_server.Channel.{Channel, diff_operator}
use irc_protocol_server.Server.{Server, M, undefined_behaviour, find_client, ◌>>=◌}
use irc_protocol_server.Server.Yields.{
  Yields, Yields-bind, Yields-pure, Yields-when, Yields-mono, Yields-with_channel,
}
use irc_protocol_server.Server.Obeys.{
  Obeys, Obeys-bind, Obeys-option, Obeys-pure, Obeys-undefined, Obeys-when, Obeys-find_client,
  Obeys-find_channel, Obeys-client_at, Obeys-modify_client,
}
use irc_protocol_server.Util.{split}
use irc_protocol_server.Util.Obeys.{message_all_channel-Obeys}
use irc_protocol_server.Command.Kick.{
  lacks_privilege, expel, kick_found, kick_channel, kick_channels, kick,
}
use irc_protocol_server.Authority.Writes.{
  other-Obeys, still_out, remove_fd_list_client-KeepsName, remove_operator_fd-KeepsName,
}
use irc_protocol_server.Authority.Members.{idle, held_at}
use irc_protocol_server.Authority.Entering.{Stands, elsewhere, reply-Obeys}

module _ (fd : ℤ) (name : Text) (ch : Channel) (out : diff_operator fd ch ≡ false) where
  -- A channel that has the client for an operator is another one.
  pub foreign :
      (n : Text) (c : Channel) (s : Server)
      → find n s.channel_list ≡ some c
      → diff_operator fd c ≡ true
      → Stands fd name ch out s
      → n ≢ name
  foreign n c s there power g at =
      ground
        (arith, power, still_out fd name ch out ⊥ c (held_at fd name ch out ⊥ n c s there at g))

  module _ (n : Text) (other : n ≢ name) where
    expel-Obeys :
        (message : Text) (target : ℤ) (client : Client)
        → Obeys (Stands fd name ch out) (expel fd n message target client)
    unfolding expel
    expel-Obeys message target client =
        let of = idle fd name ch out ⊥ in
        Obeys-bind (message_all_channel-Obeys of fd n _ _) λ _.
          Obeys-bind
            (other-Obeys fd name ch out ⊥ n _ other (remove_fd_list_client-KeepsName client.fd))
            λ _.
              Obeys-bind
                (other-Obeys fd name ch out ⊥ n _ other (remove_operator_fd-KeepsName client.fd))
                λ _. Obeys-modify_client of target _

    kick_found-Obeys :
        (nickname : Text) (words : List Text) (channel : Channel) (found : Option (ℤ × Client))
        → Obeys (Stands fd name ch out) (kick_found fd n nickname words channel found)
    kick_found-Obeys nickname words channel none = reply-Obeys fd name ch out _ false
    kick_found-Obeys nickname words channel (some (target, client)) =
        Obeys-when _ (reply-Obeys fd name ch out _ false) (
          Obeys-bind (Obeys-client_at fd) λ operator. Obeys-when _ (Obeys-pure false) (
            Obeys-when _ (Obeys-bind (expel-Obeys _ target client) λ _. Obeys-pure true)
              (reply-Obeys fd name ch out _ true)))

    kick_nicks-Obeys :
        (nicks words : List Text) (channel : Channel)
        → Obeys (Stands fd name ch out) (elim nicks as (λ _. M Bool) [
          | [] ↦ undefined_behaviour
          | nickname ∷ _ ↦ find_client nickname >>= kick_found fd n nickname words channel
        ])
    kick_nicks-Obeys [] words channel = Obeys-undefined
    kick_nicks-Obeys (nickname ∷ _) words channel =
        Obeys-bind (Obeys-find_client nickname)
          λ found. kick_found-Obeys nickname words channel found

    kick_channel-Obeys :
        (nicks words : List Text) → Obeys (Stands fd name ch out) (kick_channel fd n nicks words)
    unfolding kick_channel
    kick_channel-Obeys nicks words =
        Obeys-option _ (Obeys-find_channel n) (reply-Obeys fd name ch out _ true)
          λ channel. kick_nicks-Obeys nicks words channel

  kick_channels-Obeys :
      (names nicks words : List Text)
      → contains name names ≡ false
      → Obeys (Stands fd name ch out) (kick_channels fd names nicks words)
  unfolding kick_channels contains
  kick_channels-Obeys [] nicks words absent = Obeys-pure tt
  kick_channels-Obeys (n ∷ names) nicks words absent =
      Obeys-bind (kick_channel-Obeys n (λ at. ground (arith, text_key.beq_iff n name)) nicks words)
        λ go_on.
          Obeys-when go_on (kick_channels-Obeys names (drop 1 nicks) words (ground arith))
            (Obeys-pure tt)

  -- The first loop lets pass only names of other channels.
  lacks_privilege-Yields :
      (names : List Text) (s : Server)
      → Stands fd name ch out s
      → Yields
          (lacks_privilege fd names)
          s
          (λ refused t. Stands fd name ch out t × (refused ≡ false → contains name names ≡ false))
  unfolding lacks_privilege contains
  lacks_privilege-Yields [] s g = Yields-pure false s (g, λ _. refl)
  lacks_privilege-Yields (n ∷ names) s g =
      Yields-with_channel s n _
        (λ free. Yields-mono (lacks_privilege-Yields names s g) λ refused t (g', avoids). (
          g',
          λ passed.
              ground (
                arith,
                avoids passed,
                text_key.beq_iff n name,
                elsewhere fd name ch out n s free g,
              ),
        ))
        λ c there.
          Yields-when _ _ _ s
            (λ power. Yields-mono (lacks_privilege-Yields names s g) λ refused t (g', avoids). (
              g',
              λ passed.
                  ground
                    (arith, avoids passed, text_key.beq_iff n name, foreign n c s there power g),
            ))
            λ _.
              Yields-bind _ _ s ((Obeys-modify_client (idle fd name ch out ⊥) fd _).run s g)
                λ _ t g'. Yields-pure true t (g', λ passed. ground arith)

  pub kick-Obeys : (words : List Text) → Obeys (Stands fd name ch out) (kick fd words)
  unfolding kick
  kick-Obeys [] = Obeys-modify_client (idle fd name ch out ⊥) fd _
  kick-Obeys (verb ∷ []) = Obeys-modify_client (idle fd name ch out ⊥) fd _
  kick-Obeys (verb ∷ names ∷ []) = Obeys-modify_client (idle fd name ch out ⊥) fd _
  kick-Obeys (verb ∷ names ∷ nicks ∷ words) = record {
    run = λ s g.
        Yields-bind _ _ s (lacks_privilege-Yields (split names b',') s g) λ refused t (g', avoids).
          Yields-when refused _ _ t (λ _. Yields-pure tt t g')
            λ passed. (kick_channels-Obeys (split names b',') _ _ (avoids passed)).run t g';
  }
