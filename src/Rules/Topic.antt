-- ===== src/Rules/Topic.antt =====
-- TOPIC of IRC_PROTOCOL_SERVER/command/Topic.cpp: the new topic, and who hears of it
use irc_protocol_server.Util.{unwords, head_is}
use mathlib.Core.Option
use irc_protocol_server.Base.{
  ℤ, int_key, nat_key, Text, text, text_key, ◌==◌, ◌&&◌, not, ◌≡◌, refl, Bool, true, false, some,
  List, ◌∷◌, ◌++◌, contains, find, update, if◌then◌else◌, arith, text_eq, ap, ◌⊎◌, ◌≢◌, inl, inr,
  [], drop, Bool-cases,
}
use irc_protocol_server.Client.{Client}
use irc_protocol_server.Channel.{
  Channel, diff_operator, diff_client_in_channel, diff_mode, set_topic,
}
use irc_protocol_server.Server.{Server, ◌>>=◌, modify_channel}
use irc_protocol_server.Server.Ensures.{Ensures, Ensures-bind, Ensures-mono, Ensures-when}
use irc_protocol_server.Server.Links.{WellFormed, Same-WellFormed}
use irc_protocol_server.Server.Counts.{put_channel}
use irc_protocol_server.Server.Quiet.{
  IsCalm, put_channel-Same, with_channel, modify_channel-Ensures,
}
use irc_protocol_server.Util.Broadcast.{broadcast_line, message_all_channel}
use irc_protocol_server.Command.Topic.{new_topic, topic}
use irc_protocol_server.Safety.Part.{update-channel}
use irc_protocol_server.Rules.Delivery.{
  buffer_at, buffer_at-tell, members_once, message_all_channel-tell,
}
use irc_protocol_server.Rules.Mailed.{tell-Mailed}

-- The words with a space between two of them
abbrev pub spaced : Text → List Text → Text
spaced word [] = word
spaced word (next ∷ words) = word ++ (b' ' ∷ spaced next words)

-- What is said behind a colon, or all of it where there is none in front
abbrev pub IsBehindColon : Text → Text → Type 0
IsBehindColon said new = (said ≡ b':' ∷ new) ⊎ ((said ≡ new) × ((rest : Text) → new ≢ b':' ∷ rest))

-- The topic that the words ask for: a colon alone asks for none.
abbrev pub AsksFor : Text → List Text → Text → Type 0
AsksFor word words new =
    ((word ≡ text ":") × (new ≡ [])) ⊎ ((word ≢ text ":") × IsBehindColon (spaced word words) new)

unwords-spaced : (word : Text) (words : List Text) → unwords (word ∷ words) ≡ spaced word words
unfolding unwords
unwords-spaced word [] = refl
unwords-spaced word (next ∷ words) = ap (λ t. word ++ (b' ' ∷ t)) (unwords-spaced next words)

behind_colon : (said : Text) → IsBehindColon said (if head_is b':' said then drop 1 said else said)
unfolding head_is
behind_colon [] = inr (refl, λ rest e. ground (arith, e))
behind_colon (c ∷ said) = elim (Bool-cases (c == b':')) [
  | inl colon ↦ rw colon (inl (ground (arith, nat_key.beq_iff c b':')))
  | inr other ↦ rw other (inr (refl, λ rest e. ground (arith, e, nat_key.beq_iff c b':')))
]

new_topic-AsksFor : (word : Text) (words : List Text) → AsksFor word words (new_topic word words)
unfolding new_topic
new_topic-AsksFor word words = elim (Bool-cases (word == text ":")) [
  | inl alone ↦ inl (ground (arith, alone, text_key.beq_iff word (text ":")), rw alone refl)
  | inr more ↦ inr (
    λ e. ground (arith, more, text_key.beq_iff word (text ":"), e),
    rw (more, unwords-spaced word words) (behind_colon (spaced word words)),
  )
]

-- What TOPIC leaves: the topic is in the table, and the members have the line.
abbrev pub Topical : Server → Text → Channel → Client → Text → Server → Type 0
Topical s name ch c new t =
    (t.channel_list ≡ update name (λ d. record d { topic = new }) s.channel_list)
    × ((j : ℤ)
        → buffer_at t j ≡ (
            if contains j ch.client_fd_list
            then Option.map (λ sent. sent ++ broadcast_line c name (text "TOPIC") new)
                (buffer_at s j)
            else buffer_at s j))

set_topic-IsCalm : (new : Text) → IsCalm (set_topic new)
unfolding set_topic
set_topic-IsCalm new c = refl

nobody_skipped : (b own : Bool) → (b && not (own && false)) ≡ b
nobody_skipped true true = refl
nobody_skipped true false = refl
nobody_skipped false own = refl

module _ (fd : ℤ) (name new : Text) (s : Server) (c : Client) (ch : Channel) (w : WellFormed s)
    (here : find fd s.client_list ≡ some c) (there : find name s.channel_list ≡ some ch) where
  set_topic-Topical :
      Ensures
        (modify_channel name (set_topic new) >>= λ _.
          message_all_channel fd name (text "TOPIC") new)
        s
        (λ _. Topical s name ch c new)
  unfolding set_topic buffer_at text_eq
  set_topic-Topical =
      let u = put_channel name (set_topic new) s in
      let same = put_channel-Same name (set_topic new) s (set_topic-IsCalm new) in
      let w' = Same-WellFormed same w in
      let there' = update-channel name (set_topic new) s ch there in
      Ensures-bind {Q = λ _ t. t ≡ u} _ _ s (modify_channel-Ensures name _ s ch there refl) λ _ t e.
        rw e (
          Ensures-mono
            (message_all_channel-tell fd name (text "TOPIC") new u c (set_topic new ch) w' here
              there' refl)
            λ _ t' e'. rw e' (
              (tell-Mailed fd name (text "TOPIC") new _ ch.client_fd_list u).channels,
              λ j. rw (nobody_skipped (contains j ch.client_fd_list) (fd == j)) at (
                  buffer_at-tell fd name (text "TOPIC") new
                    (broadcast_line c name (text "TOPIC") new) ch.client_fd_list u j
                    (members_once u name (set_topic new ch) j w' there')),
            ))

-- TOPIC with words of a member returns from well-formed tables, where the topic is not restricted
-- or the member is an operator. The topic of the channel is then what the words say, with a space
-- between two of them and a colon in front taken off, or empty where the first word is a colon
-- alone; nothing else changes in the table of channels, and the line is written once to each
-- member of the channel and to nobody else.
pub topic-Topical :
    (fd : ℤ) (verb name word : Text) (words : List Text) (s : Server) (c : Client) (ch : Channel)
    → WellFormed s
    → find fd s.client_list ≡ some c
    → find name s.channel_list ≡ some ch
    → diff_client_in_channel fd ch ≡ true
    → (diff_mode b't' ch && not (diff_operator fd ch)) ≡ false
    → Ensures
        (topic fd (verb ∷ name ∷ word ∷ words))
        s
        (λ _ t. (new : Text) × AsksFor word words new × Topical s name ch c new t)
unfolding topic
topic-Topical fd verb name word words s c ch w here there member may =
    with_channel s name _ (λ absent. ground (arith, absent, there))
      λ d found. rw (same_channel d found) (
        Ensures-when _ _ _ s
          (λ _.
            Ensures-when _ _ _ s (λ barred. ground (arith, barred, may))
              λ _.
                Ensures-mono (set_topic-Topical fd name (new_topic word words) s c ch w here there)
                  λ _ t topical. (new_topic word words, new_topic-AsksFor word words, topical))
          λ out. ground (arith, out, member))
  where
    same_channel : (d : Channel) → find name s.channel_list ≡ some d → d ≡ ch
    same_channel d found = ground (arith, found, there)
