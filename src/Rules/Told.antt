-- ===== src/Rules/Told.antt =====
-- One round of IRC_PROTOCOL_SERVER/command/Privmsg.cpp and what it brings
use mathlib.Core.Option
use mathlib.Core.List.{append-nil}
use irc_protocol_server.Base.{
  ℤ, int_key, nat_key, Text, text, text_key, ◌==◌, ◌&&◌, not, ◌≡◌, refl, sym, ◌∙◌, ap, Bool, true,
  false, Option, none, some, [], ◌++◌, contains, find, find-update, if◌then◌else◌, arith,
  Option-cases, inl, inr, text_eq,
}
use irc_protocol_server.Client.{Client, append_recive_buf}
use irc_protocol_server.Channel.{Channel}
use irc_protocol_server.Server.{Server, with_nickname}
use irc_protocol_server.Server.Ensures.{Ensures, Ensures-bind, Ensures-pure, Ensures-when}
use irc_protocol_server.Server.Links.{WellFormed}
use irc_protocol_server.Server.Counts.{put_client}
use irc_protocol_server.Server.Nicknames.{with_nickname-Known}
use irc_protocol_server.Server.Quiet.{at_client, with_named, modify_client-Ensures}
use irc_protocol_server.Util.Broadcast.{broadcast_line}
use irc_protocol_server.Command.Privmsg.{private_line, privmsg_target}
use irc_protocol_server.Safety.Privmsg.{is_channel}
use irc_protocol_server.Safety.Part.{listed_channel}
use irc_protocol_server.Roster.Kick.{same_client}
use irc_protocol_server.Rules.Delivery.{
  buffer_at, tell, buffer_at-tell, members_once, message_all_channel-tell,
}
use irc_protocol_server.Rules.Mailed.{Mailed, put-Mailed, tell-Mailed}
use irc_protocol_server.Rules.Mail.{mail, Reached}

-- The buffers get what the targets bring.
abbrev pub Gets : Server → Server → (ℤ → Text) → Type 0
Gets s t brought = (j : ℤ) → buffer_at t j ≡ Option.map (λ sent. sent ++ brought j) (buffer_at s j)

-- Nothing is written to who is brought nothing.
written :
    (b : Bool) (line : Text) (o p : Option Text)
    → p ≡ (if b then Option.map (λ sent. sent ++ line) o else o)
    → p ≡ Option.map (λ sent. sent ++ (if b then line else [])) o
written true line o p e = e
written false line none p e = e
written false line (some sent) p e = e ∙ ap some (sym (append-nil sent))

and_true : (b : Bool) → (b && true) ≡ b
and_true true = refl
and_true false = refl

pub nothing-Gets : (o : Option Text) → o ≡ Option.map (λ sent. sent ++ []) o
nothing-Gets none = refl
nothing-Gets (some sent) = ap some (sym (append-nil sent))

module _ (fd : ℤ) (verb message : Text) where
  channel-Gets :
      (target : Text) (s : Server) (c : Client) (ch : Channel)
      → WellFormed s
      → is_channel target ≡ true
      → find target s.channel_list ≡ some ch
      → Gets s
          (tell fd target
            (text "PRIVMSG")
            message
            (broadcast_line c target (text "PRIVMSG") message)
            ch.client_fd_list
            s)
          (λ j. mail s fd c verb message j target)
  unfolding mail text_eq
  channel-Gets target s c ch w channel there j =
      rw (channel, there)
        (written (contains j ch.client_fd_list && not (fd == j)) _ (buffer_at s j) _ (
          rw (and_true (fd == j)) at (
            buffer_at-tell fd target (text "PRIVMSG") message
              (broadcast_line c target (text "PRIVMSG") message) ch.client_fd_list s j
              (members_once s target ch j w there))))

  nickname-Gets :
      (target : Text) (s : Server) (c reader : Client) (i : ℤ)
      → is_channel target ≡ false
      → with_nickname target s.client_list ≡ some (i, reader)
      → Gets s
          (put_client i (append_recive_buf (private_line c verb message)) s)
          (λ j. mail s fd c verb message j target)
  unfolding mail buffer_at append_recive_buf
  nickname-Gets target s c reader i other found j =
      rw (other, found)
        (written (i == j) _ (buffer_at s j) _ (elim (Option-cases (find j s.client_list)) [
          | inl absent ↦ ground (
            arith,
            find-update j i (append_recive_buf (private_line c verb message)) s.client_list,
          )
          | inr (d, here) ↦ ground (
            arith,
            find-update j i (append_recive_buf (private_line c verb message)) s.client_list,
          )
        ]))

  pub privmsg_target-mail :
      (target : Text) (s : Server) (c : Client)
      → WellFormed s
      → find fd s.client_list ≡ some c
      → Reached s c target
      → Ensures (privmsg_target fd verb message target) s (λ go_on t.
        (go_on ≡ true) × Mailed s t × Gets s t (λ j. mail s fd c verb message j target))
  unfolding privmsg_target text_eq
  privmsg_target-mail target s c w here reached =
      Ensures-when _ _ _ s
        (λ channel.
          at_client s fd _ (c, here)
            λ d found.
              Ensures-when _ _ _ s
                (λ joined.
                  let (ch, there) = listed_channel s fd target c w here (reached.0 channel) in
                  Ensures-bind _ _ s
                    (message_all_channel-tell fd target (text "PRIVMSG") message s c ch w here there
                      refl)
                    λ _ t e. Ensures-pure true t (
                      refl,
                      rw e (tell-Mailed fd target (text "PRIVMSG") message _ ch.client_fd_list s),
                      rw e (channel-Gets target s c ch w channel there),
                    ))
                λ out. ground (arith, reached.0 channel, here, found))
        λ other.
          let (p, has) = reached.1 other in
          with_named s target _ (λ nobody. ground (arith, nobody, has))
            λ (i, reader) found.
              Ensures-bind
                {Q = λ _ t. t ≡ put_client i (append_recive_buf (private_line c verb message)) s} _
                _ s
                (at_client s fd _ (c, here)
                  λ d found'.
                    modify_client-Ensures i _ s
                      (with_nickname-Known target s.client_list (i, reader) found)
                      (rw (same_client fd s c d here found') refl))
                λ _ t e. Ensures-pure true t (
                  refl,
                  rw e (put-Mailed _ i s),
                  rw e (nickname-Gets target s c reader i other found),
                )
