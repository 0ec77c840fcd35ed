-- ===== src/Rules/Unbuffered.antt =====
-- What a PRIVMSG brings is the same whatever buffers the clients have.
use mathlib.Core.Option
use mathlib.Core.List.{append_assoc}
use irc_protocol_server.Base.{
  ℤ, int_key, nat_key, Text, text_key, ◌≡◌, refl, ◌∙◌, ap, Option, none, some, List, [], ◌∷◌, ◌++◌,
  contains, find, Map, arith, Option-cases, inl, inr,
}
use irc_protocol_server.Client.{Client, find_channel}
use irc_protocol_server.Server.{Server, with_nickname}
use irc_protocol_server.Util.Broadcast.{broadcast_line}
use irc_protocol_server.Command.Privmsg.{private_line}
use irc_protocol_server.Rules.Mailed.{unbuffered, holder, Mailed}
use irc_protocol_server.Rules.Mail.{mail, mails, AllReached}

-- Two texts behind one another
pub both-brought :
    (o p q : Option Text) (a b : Text)
    → p ≡ Option.map (λ sent. sent ++ a) o
    → q ≡ Option.map (λ sent. sent ++ b) p
    → q ≡ Option.map (λ sent. sent ++ (a ++ b)) o
both-brought none p q a b e f = f ∙ ap (Option.map (λ sent. sent ++ b)) e
both-brought (some sent) p q a b e f =
    f ∙ ap (Option.map (λ sent'. sent' ++ b)) e ∙ ap some (append_assoc sent a b)

module _ (fd : ℤ) (verb message : Text) where
  -- What a target brings does not depend on the buffers.
  mail-unbuffered :
      (s t : Server) (c d : Client)
      → Mailed s t
      → unbuffered d ≡ unbuffered c
      → (j : ℤ) (target : Text)
      → mail t fd d verb message j target ≡ mail s fd c verb message j target
  unfolding mail broadcast_line private_line
  mail-unbuffered s t c d only e j target =
      ap (λ (k : Client). mail t fd k verb message j target) e
      ∙ rw (only.channels, only.names target) refl

  pub mails-unbuffered :
      (s t : Server) (c d : Client)
      → Mailed s t
      → unbuffered d ≡ unbuffered c
      → (j : ℤ) (targets : List Text)
      → mails t fd d verb message j targets ≡ mails s fd c verb message j targets
  unfolding mails
  mails-unbuffered s t c d only e j [] = refl
  mails-unbuffered s t c d only e j (target ∷ targets) =
      rw (mail-unbuffered s t c d only e j target, mails-unbuffered s t c d only e j targets) refl

  holder-some :
      (name : Text) (m : Map ℤ Client) (i : ℤ)
      → holder (with_nickname name m) ≡ some i
      → (p : ℤ × Client) × (with_nickname name m ≡ some p)
  holder-some name m i e = elim (Option-cases (with_nickname name m)) [
    | inl nobody ↦ ground (arith, nobody)
    | inr found ↦ found
  ]

  pub Mailed-AllReached :
      (s t : Server) (c d : Client) (targets : List Text)
      → Mailed s t
      → unbuffered d ≡ unbuffered c
      → AllReached s c targets
      → AllReached t d targets
  unfolding find_channel
  Mailed-AllReached s t c d [] only e all = tt
  Mailed-AllReached s t c d (target ∷ targets) only e (reached, all) = (
    (
      (λ channel. ap (λ (k : Client). contains target k.channel_list) e ∙ reached.0 channel),
      (λ other.
          let (p, has) = reached.1 other in
          holder-some target t.client_list p.0 (only.names target ∙ ap holder has)),
    ),
    Mailed-AllReached s t c d targets only e all,
  )

  pub unbuffered-found :
      (s t : Server) (c : Client)
      → Mailed s t
      → find fd s.client_list ≡ some c
      → (d : Client) × (find fd t.client_list ≡ some d) × (unbuffered d ≡ unbuffered c)
  unbuffered-found s t c only here = elim (Option-cases (find fd t.client_list)) [
    | inl absent ↦ ground (arith, only.clients fd, absent, here)
    | inr (d, there) ↦ (d, there, ground (arith, only.clients fd, here, there))
  ]
