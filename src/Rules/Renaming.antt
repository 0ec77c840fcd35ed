-- ===== src/Rules/Renaming.antt =====
-- NICK of IRC_PROTOCOL_SERVER/command/Nick.cpp: the new nickname, and who hears of it
use mathlib.Core.Option
use irc_protocol_server.Base.{
  ℤ, int_key, nat_key, Text, text, text_key, ◌==◌, ◌≡◌, refl, ◌∙◌, Bool, true, Option, none, some,
  List, [], ◌∷◌, ◌++◌, contains, find, find-update, if◌then◌else◌, arith, Option-cases, inl, inr,
  text_eq, Map,
}
use irc_protocol_server.Client.{Client, append_recive_buf, set_nickname, set_regi_nick}
use irc_protocol_server.Channel.{Channel}
use irc_protocol_server.Server.{Server, with_nickname}
use irc_protocol_server.Server.Ensures.{Ensures, Ensures-bind, Ensures-mono, Ensures-modify}
use irc_protocol_server.Server.Links.{WellFormed, Same-Known, Same-WellFormed, Same-of_tables}
use irc_protocol_server.Server.Counts.{put_client, written-found}
use irc_protocol_server.Server.Quiet.{at_client, modify_client-Ensures}
use irc_protocol_server.Util.Broadcast.{client_prefix, broadcast_line}
use irc_protocol_server.Command.Nick.{nick_name_validate, announce_to, change_nick, nick}
use irc_protocol_server.Rules.Accepted.{nick-change_nick}
use irc_protocol_server.Roster.Kick.{same_client}
use irc_protocol_server.Rules.Delivery.{buffer_at}
use irc_protocol_server.Rules.Mailed.{Mailed, Mailed-refl, put-Mailed}
use irc_protocol_server.Rules.Heralds.{nick_line, in_some, Genuine, announce_all-Heralded}

unfoldable pub nick_at : Server → ℤ → Option Text
nick_at s j = Option.map (λ (c : Client). c.nick_name) (find j s.client_list)

-- Who hears of it: the client itself where it is in no channel, and else all that share one with it
abbrev pub hears : Map Text Channel → ℤ → ℤ → List Text → Bool
hears m j fd [] = fd == j
hears m j fd (n ∷ names) = in_some m j (n ∷ names)

-- What was written before the nickname changes
record Announced (fd : ℤ) (line : Text) (heard : ℤ → Bool) (s t : Server) : Type 0 where
  only : Mailed s t
  got :
      (j : ℤ)
      → buffer_at t j
        ≡ (if heard j then Option.map (λ sent. sent ++ line) (buffer_at s j) else buffer_at s j)

module _ (fd : ℤ) (name : Text) (c : Client) where
  announce-Announced :
      (channels : List Text) (s : Server)
      → WellFormed s
      → Genuine s
      → s.send_nick_list ≡ []
      → find fd s.client_list ≡ some c
      → Ensures
          (announce_to fd (text "NICK") name c channels)
          s
          (λ _ t. Announced fd (nick_line c name) (λ j. hears s.channel_list j fd channels) s t)
  unfolding broadcast_line client_prefix text_eq buffer_at append_recive_buf contains
  announce-Announced [] s w genuine nobody here =
      modify_client-Ensures fd _ s (c, here)
        (record {
          only = put-Mailed (nick_line c name) fd s;
          got = λ j. elim (Option-cases (find j s.client_list)) [
            | inl absent ↦
                ground
                  (arith, find-update j fd (append_recive_buf (nick_line c name)) s.client_list)
            | inr (d, there) ↦
                ground
                  (arith, find-update j fd (append_recive_buf (nick_line c name)) s.client_list)
          ];
        })
  announce-Announced (channel ∷ channels) s w genuine nobody here =
      Ensures-mono
        (announce_all-Heralded fd name s c genuine here (channel ∷ channels) s w
          (record { only = Mailed-refl s; got = λ j. rw nobody refl }))
        λ _ t (h, told). record {
          only = h.only;
          got = λ j. rw (rw nobody at (told j)) at (h.got j);
        }

-- Writes to the nickname and the flag leave the buffers.
abbrev renamed : ℤ → Text → Server → Server
renamed fd name t = put_client fd (set_regi_nick true) (put_client fd (set_nickname name) t)

buffer_at-renamed :
    (fd : ℤ) (name : Text) (t : Server) (j : ℤ) → buffer_at (renamed fd name t) j ≡ buffer_at t j
unfolding buffer_at set_nickname set_regi_nick
buffer_at-renamed fd name t j = ground (
  arith,
  find-update j fd (set_regi_nick true) (put_client fd (set_nickname name) t).client_list,
  find-update j fd (set_nickname name) t.client_list,
  Option-cases (find j t.client_list),
)

nick_at-renamed :
    (fd : ℤ) (name : Text) (s t : Server) (c : Client)
    → Mailed s t
    → find fd s.client_list ≡ some c
    → (j : ℤ) → nick_at (renamed fd name t) j ≡ (if fd == j then some name else nick_at s j)
unfolding nick_at set_nickname set_regi_nick
nick_at-renamed fd name s t c only here j = ground (
  arith,
  find-update j fd (set_regi_nick true) (put_client fd (set_nickname name) t).client_list,
  find-update j fd (set_nickname name) t.client_list,
  int_key.beq_iff fd j,
  only.clients j,
  here,
  Option-cases (find j t.client_list),
  Option-cases (find j s.client_list),
)

change_nick-renames :
    (fd : ℤ) (name : Text) (s : Server) (c : Client)
    → WellFormed s
    → Genuine s
    → find fd s.client_list ≡ some c
    → Ensures (change_nick fd (text "NICK") name) s (λ _ t.
      ((j : ℤ) → nick_at t j ≡ (if fd == j then some name else nick_at s j))
      × ((j : ℤ)
          → buffer_at t j ≡ (
              if hears s.channel_list j fd c.channel_list
              then Option.map (λ sent. sent ++ nick_line c name) (buffer_at s j)
              else buffer_at s j)))
unfolding change_nick nick_at buffer_at
change_nick-renames fd name s c w genuine here =
    at_client s fd _ (c, here)
      λ d found. rw (same_client fd s d c found here) (
        let q = record s { send_nick_list = [] } in
        Ensures-bind {Q = λ _ t. t ≡ q} _ _ s (Ensures-modify _ s refl) λ _ q' e. rw e (
          Ensures-bind _ _ q
            (announce-Announced fd name c c.channel_list q
              (Same-WellFormed (Same-of_tables refl refl) w) genuine refl here)
            λ _ t told.
              let known = Same-Known fd told.only.same (c, here) in
              Ensures-bind {Q = λ _ u. u ≡ put_client fd (set_nickname name) t} _ _ t
                (modify_client-Ensures fd _ t known refl)
                λ _ u e'. rw e' (
                  modify_client-Ensures fd _ (put_client fd (set_nickname name) t)
                    (_, written-found fd (set_nickname name) t known.0 known.1)
                    (
                      (λ j. nick_at-renamed fd name q t c told.only here j),
                      (λ j. buffer_at-renamed fd name t j ∙ told.got j),
                    ))))

-- NICK with a nickname that is valid and that nobody has, of a client that has passed, returns from
-- well-formed tables whose clients' records name their own descriptors. The client has the nickname
-- then, and all others have the ones that they had; and its NICK line was written once to each client
-- that shares a channel with it, itself included, or to itself alone where it is in no channel, and
-- nothing was written to anybody else.
pub nick-renames :
    (fd : ℤ) (name : Text) (rest : List Text) (s : Server) (c : Client)
    → WellFormed s
    → Genuine s
    → find fd s.client_list ≡ some c
    → c.is_regi_pass ≡ true
    → with_nickname name s.client_list ≡ none
    → nick_name_validate name ≡ true
    → Ensures (nick fd (text "NICK" ∷ name ∷ rest)) s (λ _ t.
      ((j : ℤ) → nick_at t j ≡ (if fd == j then some name else nick_at s j))
      × ((j : ℤ)
          → buffer_at t j ≡ (
              if hears s.channel_list j fd c.channel_list
              then Option.map (λ sent. sent ++ nick_line c name) (buffer_at s j)
              else buffer_at s j)))
nick-renames fd name rest s c w genuine here passed free valid =
    nick-change_nick fd (text "NICK") name rest s c here passed free valid
      (change_nick-renames fd name s c w genuine here)
