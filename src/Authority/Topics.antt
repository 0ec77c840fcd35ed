-- ===== src/Authority/Topics.antt =====
-- TOPIC and INVITE (IRC_PROTOCOL_SERVER/command) of a client that is no operator of the channel
-- `name`
use irc_protocol_server.Base.{
  ℤ, int_key, nat_key, Text, text_key, ◌≡◌, ◌≢◌, ◌∙◌, ap, inl, inr, false, not, ◌&&◌, Option, none,
  some, List, [], ◌∷◌, find, Bool-cases, arith,
}
use irc_protocol_server.Client.{Client}
use irc_protocol_server.Channel.{Channel, diff_operator, diff_mode, set_topic}
use irc_protocol_server.Server.{Server, ◌>>=◌, find_channel, modify_client, modify_channel}
use irc_protocol_server.Server.Yields.{
  Yields, Yields-bind, Yields-when, Yields-with_channel, Yields-at_client, Yields-find_client,
  Yields-modify_channel,
}
use irc_protocol_server.Server.Obeys.{
  Obeys, Obeys-bind, Obeys-when, Obeys-client_at, Obeys-modify_client,
}
use irc_protocol_server.Util.Obeys.{message_all_channel-Obeys}
use irc_protocol_server.Command.Topic.{new_topic, topic_words, topic}
use irc_protocol_server.Command.Invite.{send_invite, invite_found, invite}
use irc_protocol_server.Authority.{guarded}
use irc_protocol_server.Authority.Writes.{
  guarded-operator, other-Obeys, put-Governed, set_topic-KeepsName, append_fd_list_invite-KeepsName,
}
use irc_protocol_server.Authority.Members.{idle, held_at}
use irc_protocol_server.Authority.Entering.{Stands}
use irc_protocol_server.Authority.Operators.{foreign}

module _ (fd : ℤ) (name : Text) (ch : Channel) (out : diff_operator fd ch ≡ false) where
  error-Obeys : (f : Client → Client) → Obeys (Stands fd name ch out) (modify_client fd f)
  error-Obeys f = Obeys-modify_client (idle fd name ch out ⊥) fd f

  -- The topic of a channel that does not restrict it is open.
  guarded-set_topic :
      (c : Channel) (new : Text)
      → c.topic_status ≡ false
      → guarded fd (set_topic new c) ≡ guarded fd c
  unfolding guarded set_topic
  guarded-set_topic c new loose = ap (λ t. record (guarded fd c) { topic = t }) (ground arith)

  set_topic-Yields :
      (n new : Text) (c : Channel) (s : Server)
      → find n s.channel_list ≡ some c
      → (diff_mode b't' c && not (diff_operator fd c)) ≡ false
      → Stands fd name ch out s
      → Yields (modify_channel n (set_topic new)) s (λ _. Stands fd name ch out)
  unfolding diff_mode
  set_topic-Yields n new c s there may g = elim (Bool-cases (diff_operator fd c)) [
    | inl power ↦
        (other-Obeys fd name ch out ⊥ n _ (foreign fd name ch out n c s there power g)
            (set_topic-KeepsName new)).run
          s g
    | inr powerless ↦ Yields-modify_channel n _ s λ d here.
        put-Governed fd name ch out ⊥ n _ s (set_topic-KeepsName new)
          (λ e found same at.
            guarded-set_topic e new
              (ground (arith, ap (λ m. find m s.channel_list) at, found, there))
            ∙ same)
          g
  ]

  topic_words-Yields :
      (n : Text) (c : Channel) (words : List Text) (s : Server)
      → find n s.channel_list ≡ some c
      → Stands fd name ch out s
      → Yields (topic_words fd n c words) s (λ _. Stands fd name ch out)
  topic_words-Yields n c [] s there g = (Obeys-when _ (error-Obeys _) (error-Obeys _)).run s g
  topic_words-Yields n c (word ∷ words) s there g =
      Yields-when _ _ _ s (λ _. (error-Obeys _).run s g)
        λ may.
          Yields-bind _ _ s (set_topic-Yields n (new_topic word words) c s there may g)
            λ _ t g'. (message_all_channel-Obeys (idle fd name ch out ⊥) fd n _ _).run t g'

  pub topic-Obeys : (words : List Text) → Obeys (Stands fd name ch out) (topic fd words)
  unfolding topic
  topic-Obeys [] = error-Obeys _
  topic-Obeys (verb ∷ []) = error-Obeys _
  topic-Obeys (verb ∷ n ∷ words) = record {
    run = λ s g.
        Yields-with_channel s n _ (λ free. (error-Obeys _).run s g)
          λ c there.
            Yields-when _ _ _ s (λ _. topic_words-Yields n c words s there g)
              λ _. (error-Obeys _).run s g;
  }

  -- INVITE asks for the descriptor that the client's record names.
  abbrev pub Powerless : Server → Type 0
  Powerless s = (c : Client) → find fd s.client_list ≡ some c → diff_operator c.fd ch ≡ false

  send_invite-Obeys :
      (n : Text) (nickname : Text) (target : ℤ) (invited : Client)
      → n ≢ name
      → Obeys (Stands fd name ch out) (send_invite fd nickname n target invited)
  unfolding send_invite
  send_invite-Obeys n nickname target invited other = Obeys-bind (Obeys-client_at fd) λ client.
      Obeys-bind (Obeys-modify_client (idle fd name ch out ⊥) target _) λ _.
        Obeys-bind (error-Obeys _)
          λ _. other-Obeys fd name ch out ⊥ n _ other (append_fd_list_invite-KeepsName invited.fd)

  invite_found-Yields :
      (nickname n : Text) (target : Option (ℤ × Client)) (s : Server)
      → Stands fd name ch out s
      → Powerless s
      → Yields
          (find_channel n >>= λ found. invite_found fd nickname n target found)
          s
          (λ _. Stands fd name ch out)
  invite_found-Yields nickname n none s g powerless =
      Yields-with_channel s n _ (λ free. (error-Obeys _).run s g) λ c there. (error-Obeys _).run s g
  invite_found-Yields nickname n (some (target, invited)) s g powerless =
      Yields-with_channel s n _ (λ free. (error-Obeys _).run s g)
        λ c there. Yields-at_client s fd _ λ client here.
          Yields-when _ _ _ s (λ _. (error-Obeys _).run s g)
            λ _.
              Yields-when _ _ _ s (λ _. (error-Obeys _).run s g)
                λ power.
                  Yields-when _ _ _ s (λ _. (error-Obeys _).run s g)
                    λ _.
                      (send_invite-Obeys n nickname target invited (λ at. ground (
                        arith,
                        power,
                        powerless client here,
                        guarded-operator fd client.fd c ch
                            (held_at fd name ch out ⊥ n c s there at g),
                      ))).run
                        s g

  pub invite-Yields :
      (words : List Text) (s : Server)
      → Stands fd name ch out s
      → Powerless s
      → Yields (invite fd words) s (λ _. Stands fd name ch out)
  unfolding invite
  invite-Yields [] s g powerless = (error-Obeys _).run s g
  invite-Yields (verb ∷ []) s g powerless = (error-Obeys _).run s g
  invite-Yields (verb ∷ nickname ∷ []) s g powerless = (error-Obeys _).run s g
  invite-Yields (verb ∷ nickname ∷ n ∷ words) s g powerless =
      Yields-find_client s nickname _ λ target. invite_found-Yields nickname n target s g powerless
