-- ===== src/Safety/Privmsg.antt =====
-- IRC_PROTOCOL_SERVER/command/Privmsg.cpp
use irc_protocol_server.Base.{
  ℤ, int_key, nat_key, Text, text, text_key, ◌≡◌, refl, true, false, some, List, [], ◌∷◌, ◌||◌, ◌∙◌,
  ap, Bool, Bool-cases, Option-cases, inl, inr, arith,
}
use irc_protocol_server.Client.{Client}
use irc_protocol_server.Error.{error_cantsendtochan_404, error_needmoreparams_461}
use irc_protocol_server.Server.{Server, with_nickname, ◌>>=◌, pure}
use irc_protocol_server.Server.Ensures.{Ensures, Ensures-when, Ensures-pure}
use irc_protocol_server.Server.Keeps.{
  Keeps, Keeps-Ensures, Keeps-bind, Keeps-when, Keeps-undefined, Keeps-with_named,
}
use irc_protocol_server.Server.Links.{
  Same, Same-Known, Same-WellFormed, WellFormed, Known, Shape, shape, shape_at-some,
  client_of_shape,
}
use irc_protocol_server.Server.Nicknames.{
  with_nickname-Known, with_nickname-found, with_nickname-name, with_nickname-nobody,
}
use irc_protocol_server.Server.Quiet.{
  Quiet, Quiet-bind, Quiet-pure, modify_client-Quiet, at_client, with_named,
  append_recive_buf-IsQuiet,
}
use irc_protocol_server.Util.{split, head_is}
use irc_protocol_server.Util.Quiet.{message_all_channel-Quiet}
use irc_protocol_server.Command.Privmsg.{to_nickname, privmsg_target, privmsg_targets, privmsg}
use irc_protocol_server.Safety.Live.{Live, Live-Known, Live-Quiet, Live-answer}

abbrev pub is_channel : Text → Bool
is_channel target = head_is b'#' target || head_is b'&' target

-- The target is a channel name or the nickname of a client.
abbrev pub Addressed : Server → Text → Type 0
Addressed s target =
    is_channel target ≡ false → (p : ℤ × Client) × (with_nickname target s.client_list ≡ some p)

abbrev pub AllAddressed : Server → List Text → Type 0
AllAddressed s [] = Unit {0}
AllAddressed s (target ∷ targets) = Addressed s target × AllAddressed s targets

-- Who had a nickname has it still.
Same-nickname :
    {s t : Server} (name : Text)
    → WellFormed s
    → Same s t
    → (p : ℤ × Client) × (with_nickname name s.client_list ≡ some p)
    → (p : ℤ × Client) × (with_nickname name t.client_list ≡ some p)
Same-nickname {s} {t} name w same ((j, c), found) =
    let here = with_nickname-found name s.client_list j c w.distinct found in
    let (d, there, e) = client_of_shape t j (shape c) (same.clients j ∙ shape_at-some s j c here) in
    elim (Option-cases (with_nickname name t.client_list)) [
      | inl nobody ↦ absurd (
          with_nickname-nobody name t.client_list j d nobody there
            (ap (λ (r : Shape). r.nick_name) e ∙ with_nickname-name name s.client_list j c found))
      | inr somebody ↦ somebody
    ]

Same-AllAddressed :
    {s t : Server} (targets : List Text)
    → WellFormed s
    → Same s t
    → AllAddressed s targets
    → AllAddressed t targets
Same-AllAddressed [] w same all = tt
Same-AllAddressed (target ∷ targets) w same all =
    ((λ other. Same-nickname target w same (all.0 other)), Same-AllAddressed targets w same all.1)

to_nickname-Quiet :
    (fd : ℤ) (verb message : Text) (p : ℤ × Client) (name : Text) (s : Server)
    → with_nickname name s.client_list ≡ some p
    → Known s fd
    → Quiet (to_nickname fd verb message (some p) >>= λ _. pure true) s
to_nickname-Quiet fd verb message (target, reader) name s found known =
    Quiet-bind _ _ s
      (at_client s fd _ known λ c here.
        modify_client-Quiet target _ s (append_recive_buf-IsQuiet _)
          (with_nickname-Known name s.client_list (target, reader) found))
      λ _ t _. Quiet-pure true t

privmsg_target-Quiet :
    (fd : ℤ) (verb message target : Text) (s : Server)
    → WellFormed s
    → Known s fd
    → Addressed s target
    → Quiet (privmsg_target fd verb message target) s
unfolding privmsg_target error_cantsendtochan_404
privmsg_target-Quiet fd verb message target s w known addressed =
    Ensures-when _ _ _ s
      (λ _. at_client s fd _ known λ c here.
        Ensures-when _ _ _ s
          (λ _.
            Quiet-bind _ _ s
              (message_all_channel-Quiet fd target s w known (text "PRIVMSG") message)
              λ _ t _. Quiet-pure true t)
          λ _.
            Quiet-bind _ _ s (modify_client-Quiet fd _ s (λ d. refl) known)
              λ _ t _. Quiet-pure false t)
      λ other.
        let (p, found) = addressed other in
        with_named s target _ (λ nobody. ground (arith, nobody, found))
          λ q found'. to_nickname-Quiet fd verb message q target s found' known

privmsg_targets-Quiet :
    (fd : ℤ) (verb message : Text) (targets : List Text) (s : Server)
    → WellFormed s
    → Known s fd
    → AllAddressed s targets
    → Quiet (privmsg_targets fd verb message targets) s
unfolding privmsg_targets
privmsg_targets-Quiet fd verb message [] s w known all = Quiet-pure tt s
privmsg_targets-Quiet fd verb message (target ∷ targets) s w known all =
    Quiet-bind _ _ s (privmsg_target-Quiet fd verb message target s w known all.0) λ go_on t same.
      Ensures-when _ _ _ t
        (λ _.
          privmsg_targets-Quiet fd verb message targets t (Same-WellFormed same w)
            (Same-Known fd same known) (Same-AllAddressed targets w same all.1))
        λ _. Quiet-pure tt t

-- PRIVMSG of a client that is on the server returns from well-formed tables and changes buffers
-- at most, as long as each of its targets begins like a channel name or is the nickname of a client.
pub privmsg-Same :
    (fd : ℤ) (verb targets word : Text) (words : List Text) (s : Server)
    → WellFormed s
    → Known s fd
    → AllAddressed s (split targets b',')
    → Ensures (privmsg fd (verb ∷ targets ∷ word ∷ words)) s (λ _ t. Same s t)
unfolding privmsg
privmsg-Same fd verb targets word words s w known all =
    privmsg_targets-Quiet fd verb _ (split targets b',') s w known all

privmsg_target-Keeps :
    (fd : ℤ) (verb message target : Text) (s : Server)
    → Live fd s
    → Keeps (privmsg_target fd verb message target) s (λ _. Live fd)
unfolding privmsg_target
privmsg_target-Keeps fd verb message target s live =
    elim (Option-cases (with_nickname target s.client_list)) [
      | inr found ↦ returns_so (λ _. found)
      | inl nobody ↦ elim (Bool-cases (is_channel target)) [
        | inl channel ↦ returns_so (λ other. ground arith)
        | inr other ↦
            Keeps-when _ _ _ s (λ channel. ground arith)
              λ _.
                Keeps-with_named s target _
                  (λ _.
                    Keeps-bind {Q = λ _. Live fd} _ _ s (Keeps-undefined s)
                      λ _ t live'. Keeps-Ensures (Ensures-pure true t live'))
                  λ p found. ground (arith, nobody, found)
      ]
    ]
  where
    returns_so : Addressed s target → Keeps (privmsg_target fd verb message target) s (λ _. Live fd)
    returns_so addressed = Keeps-Ensures (
        Live-Quiet live
          (privmsg_target-Quiet fd verb message target s live.well (Live-Known live) addressed))

privmsg_targets-Keeps :
    (fd : ℤ) (verb message : Text) (targets : List Text) (s : Server)
    → Live fd s
    → Keeps (privmsg_targets fd verb message targets) s (λ _. Live fd)
unfolding privmsg_targets
privmsg_targets-Keeps fd verb message [] s live = Keeps-Ensures (Ensures-pure tt s live)
privmsg_targets-Keeps fd verb message (target ∷ targets) s live =
    Keeps-bind _ _ s (privmsg_target-Keeps fd verb message target s live) λ go_on t live'.
      Keeps-when _ _ _ t (λ _. privmsg_targets-Keeps fd verb message targets t live')
        λ _. Keeps-Ensures (Ensures-pure tt t live')

-- PRIVMSG with any words: it ends, and where it returns, the tables are well-formed.
pub privmsg-Keeps :
    (fd : ℤ) (cmd_vector : List Text) (s : Server)
    → Live fd s
    → Keeps (privmsg fd cmd_vector) s (λ _. Live fd)
unfolding privmsg error_needmoreparams_461
privmsg-Keeps fd (verb ∷ targets ∷ word ∷ words) s live =
    privmsg_targets-Keeps fd verb _ (split targets b',') s live
privmsg-Keeps fd (verb ∷ targets ∷ []) s live = Keeps-Ensures (Live-answer fd _ s live (λ d. refl))
privmsg-Keeps fd (verb ∷ []) s live = Keeps-Ensures (Live-answer fd _ s live (λ d. refl))
privmsg-Keeps fd [] s live = Keeps-Ensures (Live-answer fd _ s live (λ d. refl))
