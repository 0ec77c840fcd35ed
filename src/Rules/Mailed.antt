-- ===== src/Rules/Mailed.antt =====
-- Writes to the buffers of clients only
use mathlib.Core.Option
use irc_protocol_server.Base.{
  ℤ, int_key, nat_key, Text, text, text_key, ◌==◌, ◌&&◌, ◌≡◌, refl, ◌∙◌, Option, none, some, List,
  [], ◌∷◌, find, find-update, update, Map, arith, Option-cases, Bool-cases, inl, inr,
}
use irc_protocol_server.Client.{Client, append_recive_buf}
use irc_protocol_server.Server.{Server, with_nickname}
use irc_protocol_server.Server.Links.{Same, Same-refl, Same-trans}
use irc_protocol_server.Server.Counts.{put_client}
use irc_protocol_server.Server.Quiet.{update-Same, append_recive_buf-IsQuiet}
use irc_protocol_server.Rules.Delivery.{tell}

-- A client, whatever waits to be sent to it
abbrev pub unbuffered : Client → Client
unbuffered c = record c { recive_buf = [] }

abbrev pub holder : Option (ℤ × Client) → Option ℤ
holder none = none
holder (some (j, c)) = some j

-- Only the buffers of clients differ.
pub record Mailed (s t : Server) : Type 0 where
  pub same : Same s t
  pub channels : t.channel_list ≡ s.channel_list
  pub names :
      (name : Text)
      → holder (with_nickname name t.client_list) ≡ holder (with_nickname name s.client_list)
  pub clients :
      (j : ℤ)
      → Option.map unbuffered (find j t.client_list) ≡ Option.map unbuffered (find j s.client_list)

pub Mailed-refl : (s : Server) → Mailed s s
Mailed-refl s = record {
  same = Same-refl s;
  channels = refl;
  names = λ name. refl;
  clients = λ j. refl;
}

pub Mailed-trans : {s t u : Server} → Mailed s t → Mailed t u → Mailed s u
Mailed-trans p q = record {
  same = Same-trans p.same q.same;
  channels = q.channels ∙ p.channels;
  names = λ name. q.names name ∙ p.names name;
  clients = λ j. q.clients j ∙ p.clients j;
}

holder-append :
    (name line : Text) (target : ℤ) (m : Map ℤ Client)
    → holder (with_nickname name (update target (append_recive_buf line) m))
      ≡ holder (with_nickname name m)
unfolding with_nickname update append_recive_buf
holder-append name line target [] = refl
holder-append name line target ((j, c) ∷ m) = ground (arith, holder-append name line target m)

pub put-Mailed :
    (line : Text) (target : ℤ) (s : Server)
    → Mailed s (put_client target (append_recive_buf line) s)
unfolding append_recive_buf
put-Mailed line target s = record {
  same = update-Same s target (append_recive_buf line) (append_recive_buf-IsQuiet line);
  channels = refl;
  names = λ name. holder-append name line target s.client_list;
  clients = λ j. elim (Option-cases (find j s.client_list)) [
    | inl absent ↦ ground (arith, find-update j target (append_recive_buf line) s.client_list)
    | inr (c, here) ↦ ground (arith, find-update j target (append_recive_buf line) s.client_list)
  ];
}

pub tell-Mailed :
    (fd : ℤ) (name command message line : Text) (targets : List ℤ) (s : Server)
    → Mailed s (tell fd name command message line targets s)
unfolding tell
tell-Mailed fd name command message line [] s = Mailed-refl s
tell-Mailed fd name command message line (target ∷ targets) s =
    elim (Bool-cases (fd == target && command == text "PRIVMSG")) [
      | inl own ↦ rw own (tell-Mailed fd name command message line targets s)
      | inr other ↦ rw other (
          Mailed-trans (put-Mailed line target s) (
            tell-Mailed fd name command message line targets
              (put_client target (append_recive_buf line) s)))
    ]
