-- ===== src/Safety/Live.antt =====
-- Well-formed tables with the acting client in them: the states in which the handlers of
-- IRC_PROTOCOL_SERVER/command run for a registered client.
use irc_protocol_server.Base.{
  ℤ, int_key, Text, text_key, ◌≡◌, ◌∙◌, ap, true, some, find, update, find-update, ◌==◌,
  if◌then◌else◌, arith,
}
use irc_protocol_server.Client.{Client}
use irc_protocol_server.Channel.{Channel}
use irc_protocol_server.Server.{Server, M, ◌>>=◌, modify_client}
use irc_protocol_server.Server.Ensures.{Ensures, Ensures-mono, Ensures-bind}
use irc_protocol_server.Server.Links.{
  WellFormed, Same, Same-WellFormed, Known, shape, shape_at-some, client_of_shape, registered, roll,
  roll_at-some, channel_of_roll,
}
use irc_protocol_server.Server.Quiet.{Quiet, modify_client-Quiet, IsQuiet}

pub record Live (fd : ℤ) (s : Server) : Type 0 where
  pub well : WellFormed s
  pub client : Client
  pub here : find fd s.client_list ≡ some client
  pub inside : registered (shape client) ≡ true

abbrev pub Live-Known : {fd : ℤ} {s : Server} → Live fd s → Known s fd
Live-Known live = (live.client, live.here)

pub Same-Live : {fd : ℤ} {s t : Server} → Same s t → Live fd s → Live fd t
Same-Live {fd} {s} {t} same live =
    let (c, here, e) =
      client_of_shape t fd (shape live.client)
        (same.clients fd ∙ shape_at-some s fd live.client live.here) in
    record {
      well = Same-WellFormed same live.well;
      client = c;
      here = here;
      inside = ap registered e ∙ live.inside;
    }

-- A channel that is in the table stays, with its name and its members.
pub Same-channel :
    {s t : Server} (name : Text) (c : Channel)
    → Same s t
    → find name s.channel_list ≡ some c
    → (d : Channel) × (find name t.channel_list ≡ some d) × (roll d ≡ roll c)
Same-channel {s} {t} name c same e =
    channel_of_roll t name (roll c) (same.channels name ∙ roll_at-some s name c e)

pub Live-Quiet :
    {A : Type 0} {fd : ℤ} {m : M A} {s : Server}
    → Live fd s
    → Quiet m s
    → Ensures m s (λ _. Live fd)
Live-Quiet live q = Ensures-mono q λ a t same. Same-Live same live

-- A reply, or any other quiet write to a client
pub Live-reply :
    (fd target : ℤ) (f : Client → Client) (s : Server)
    → Live fd s
    → IsQuiet f
    → Known s target
    → Ensures (modify_client target f) s (λ _. Live fd)
Live-reply fd target f s live quiet known =
    Live-Quiet live (modify_client-Quiet target f s quiet known)

-- A quiet action first
pub Live-then :
    {A B : Type 0} {Q : B → Server → Type 0} {fd : ℤ} (m : M A) (f : A → M B) (s : Server)
    → Live fd s
    → Quiet m s
    → ((a : A) (t : Server) → Same s t → Live fd t → Ensures (f a) t Q)
    → Ensures (m >>= f) s Q
Live-then m f s live q k = Ensures-bind m f s q λ a t same. k a t same (Same-Live same live)

-- A write that keeps the registration keeps the acting client.
pub update-inside :
    (fd target : ℤ) (f : Client → Client) (s : Server)
    → Live fd s
    → ((c : Client) → registered (shape (f c)) ≡ registered (shape c))
    → (c : Client) × (find fd (update target f s.client_list) ≡ some c)
      × (registered (shape c) ≡ true)
update-inside fd target f s live keep = (
  if target == fd then f live.client else live.client,
  ground (arith, find-update fd target f s.client_list, live.here),
  ground (arith, keep live.client, live.inside),
)

-- A reply to the acting client
pub Live-answer :
    (fd : ℤ) (f : Client → Client) (s : Server)
    → Live fd s
    → IsQuiet f
    → Ensures (modify_client fd f) s (λ _. Live fd)
Live-answer fd f s live quiet = Live-reply fd fd f s live quiet (Live-Known live)
