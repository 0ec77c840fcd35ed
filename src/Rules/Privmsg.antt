-- ===== src/Rules/Privmsg.antt =====
-- IRC_PROTOCOL_SERVER/command/Privmsg.cpp, the handler, and who gets what
use mathlib.Core.Option
use irc_protocol_server.Base.{
  ℤ, int_key, nat_key, Text, text_key, ◌≡◌, some, List, [], ◌∷◌, ◌++◌, find,
}
use irc_protocol_server.Client.{Client}
use irc_protocol_server.Server.{Server, when◌act◌otherwise◌}
use irc_protocol_server.Server.Ensures.{Ensures, Ensures-bind, Ensures-mono, Ensures-pure}
use irc_protocol_server.Server.Links.{WellFormed, Same-WellFormed}
use irc_protocol_server.Util.{split, channel_message}
use irc_protocol_server.Command.Privmsg.{privmsg_targets, privmsg}
use irc_protocol_server.Rules.Delivery.{buffer_at}
use irc_protocol_server.Rules.Mailed.{Mailed, Mailed-refl, Mailed-trans}
use irc_protocol_server.Rules.Mail.{mails, AllReached}
use irc_protocol_server.Rules.Told.{Gets, nothing-Gets, privmsg_target-mail}
use irc_protocol_server.Rules.Unbuffered.{
  mails-unbuffered, both-brought, Mailed-AllReached, unbuffered-found,
}

module _ (fd : ℤ) (verb message : Text) where
  privmsg_targets-mails :
      (targets : List Text) (s : Server) (c : Client)
      → WellFormed s
      → find fd s.client_list ≡ some c
      → AllReached s c targets
      → Ensures
          (privmsg_targets fd verb message targets)
          s
          (λ _ t. Mailed s t × Gets s t (λ j. mails s fd c verb message j targets))
  unfolding privmsg_targets mails when◌act◌otherwise◌
  privmsg_targets-mails [] s c w here all =
      Ensures-pure tt s (Mailed-refl s, λ j. nothing-Gets (buffer_at s j))
  privmsg_targets-mails (target ∷ targets) s c w here (reached, all) =
      Ensures-bind _ _ s (privmsg_target-mail fd verb message target s c w here reached)
        λ go_on t (goes, only, first).
          let (d, there, e) = unbuffered-found fd verb message s t c only here in
          rw goes (
            Ensures-mono
              (privmsg_targets-mails targets t d (Same-WellFormed only.same w) there
                (Mailed-AllReached fd verb message s t c d targets only e all))
              λ _ u (only', rest). (
                Mailed-trans only only',
                λ j. rw (mails-unbuffered fd verb message s t c d only e j targets) at (
                    both-brought (buffer_at s j) (buffer_at t j) (buffer_at u j) _
                      (mails t fd d verb message j targets) (first j) (rest j)),
              ))

-- PRIVMSG of a client on the server returns from well-formed tables, where each target is a channel
-- that the client is in or the nickname of a client. Then each client gets, behind what waits for it
-- already, for each target in turn the line of the channel, if it is another member of it, or the
-- private line, if it is the first with the nickname, and nothing else.
pub privmsg-mails :
    (fd : ℤ) (verb targets word : Text) (words : List Text) (s : Server) (c : Client)
    → WellFormed s
    → find fd s.client_list ≡ some c
    → AllReached s c (split targets b',')
    → Ensures (privmsg fd (verb ∷ targets ∷ word ∷ words)) s (λ _ t.
      (j : ℤ)
      → buffer_at t j
        ≡ Option.map
            (λ sent.
              sent
              ++ mails s fd c verb
                  (channel_message 2 (verb ∷ targets ∷ word ∷ words))
                  j
                  (split targets b','))
            (buffer_at s j))
unfolding privmsg
privmsg-mails fd verb targets word words s c w here all =
    Ensures-mono
      (privmsg_targets-mails fd verb (channel_message 2 (verb ∷ targets ∷ word ∷ words))
        (split targets b',') s c w here all)
      λ _ t (only, brought). brought
