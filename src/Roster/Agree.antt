-- ===== src/Roster/Agree.antt =====
-- What the rounds of IRC_PROTOCOL_SERVER/command/Kick.cpp read and none of them writes: who has which
-- nickname, and which channels there are
use mathlib.Core.Option
use irc_protocol_server.Base.{
  ℤ, int_key, nat_key, Text, text, text_key, ◌==◌, ◌&&◌, ◌≡◌, refl, ◌∙◌, Bool, true, false, Option,
  none, some, List, [], ◌∷◌, find, find-update, update, Map, arith, Bool-cases, Option-cases, inl,
  inr,
}
use irc_protocol_server.Client.{Client, append_recive_buf}
use irc_protocol_server.Channel.{Channel}
use irc_protocol_server.Server.{Server, with_nickname}
use irc_protocol_server.Server.Counts.{put_client, put_channel}
use irc_protocol_server.Rules.Delivery.{tell}

-- The key and the descriptor of a client that was found
abbrev pub key_and_fd : Option (ℤ × Client) → Option (ℤ × ℤ)
key_and_fd none = none
key_and_fd (some (j, c)) = some (j, c.fd)

abbrev pub is_there : Option Channel → Bool
is_there none = false
is_there (some c) = true

-- The two states agree on it.
pub record Agree (fd : ℤ) (s t : Server) : Type 0 where
  pub clients :
      (nick : Text)
      → key_and_fd (with_nickname nick t.client_list)
        ≡ key_and_fd (with_nickname nick s.client_list)
  pub channels :
      (name : Text) → is_there (find name t.channel_list) ≡ is_there (find name s.channel_list)
  pub own :
      Option.map (λ (c : Client). c.nick_name) (find fd t.client_list)
      ≡ Option.map (λ (c : Client). c.nick_name) (find fd s.client_list)

pub Agree-refl : (fd : ℤ) (s : Server) → Agree fd s s
Agree-refl fd s = record { clients = λ nick. refl; channels = λ name. refl; own = refl }

pub Agree-trans : {fd : ℤ} {s t u : Server} → Agree fd s t → Agree fd t u → Agree fd s u
Agree-trans p q = record {
  clients = λ nick. q.clients nick ∙ p.clients nick;
  channels = λ name. q.channels name ∙ p.channels name;
  own = q.own ∙ p.own;
}

-- A write to a client that leaves its nickname and its descriptor
abbrev pub KeepsNick : (Client → Client) → Type 0
KeepsNick f = (c : Client) → ((f c).nick_name ≡ c.nick_name) × ((f c).fd ≡ c.fd)

key_and_fd-update :
    (nick : Text) (j : ℤ) (f : Client → Client) (m : Map ℤ Client)
    → KeepsNick f
    → key_and_fd (with_nickname nick (update j f m)) ≡ key_and_fd (with_nickname nick m)
unfolding with_nickname update
key_and_fd-update nick j f [] keep = refl
key_and_fd-update nick j f ((i, c) ∷ m) keep =
    ground (arith, key_and_fd-update nick j f m, (keep c).0, (keep c).1)

pub put_client-Agree :
    (fd j : ℤ) (f : Client → Client) (s : Server) → KeepsNick f → Agree fd s (put_client j f s)
put_client-Agree fd j f s keep = record {
  clients = λ nick. key_and_fd-update nick j f s.client_list keep;
  channels = λ name. refl;
  own = elim (Option-cases (find fd s.client_list)) [
    | inl absent ↦ ground (arith, find-update fd j f s.client_list)
    | inr (c, here) ↦ ground (arith, find-update fd j f s.client_list, (keep c).0)
  ];
}

pub put_channel-Agree :
    (fd : ℤ) (n : Text) (f : Channel → Channel) (s : Server) → Agree fd s (put_channel n f s)
put_channel-Agree fd n f s = record {
  clients = λ nick. refl;
  channels = λ name. elim (Option-cases (find name s.channel_list)) [
    | inl absent ↦ ground (arith, find-update name n f s.channel_list)
    | inr (c, here) ↦ ground (arith, find-update name n f s.channel_list)
  ];
  own = refl;
}

append-KeepsNick : (line : Text) → KeepsNick (append_recive_buf line)
unfolding append_recive_buf
append-KeepsNick line c = (refl, refl)

pub tell-Agree :
    (me fd : ℤ) (name command message line : Text) (targets : List ℤ) (s : Server)
    → Agree me s (tell fd name command message line targets s)
unfolding tell
tell-Agree me fd name command message line [] s = Agree-refl me s
tell-Agree me fd name command message line (target ∷ targets) s =
    elim (Bool-cases (fd == target && command == text "PRIVMSG")) [
      | inl skipped ↦ rw skipped (tell-Agree me fd name command message line targets s)
      | inr told ↦ rw told (
          Agree-trans
            (put_client-Agree me target (append_recive_buf line) s (append-KeepsNick line))
            (tell-Agree me fd name command message line targets
              (put_client target (append_recive_buf line) s)))
    ]
