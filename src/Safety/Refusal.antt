-- ===== src/Safety/Refusal.antt =====
-- A command of a client that has not registered: `signUp` of IRC_PROTOCOL_SERVER/src/Command.cpp,
-- with what it does to a command that may not come yet
use irc_protocol_server.Base.{
  ℤ, int_key, nat_key, Text, text, text_key, ◌==◌, ◌≡◌, refl, false, Bool-cases, ◌∙◌, ap, ◌⊎◌, inl,
  inr, none, some, List, [], ◌∷◌, ◌++◌, find, push_back, erase_key, erase_key-update,
  find-erase_key, arith,
}
use irc_protocol_server.Client.{Client, append_recive_buf, get_is_regist, reset_client}
use irc_protocol_server.Error.{crlf}
use irc_protocol_server.Server.{Server, ◌>>=◌, when◌act◌otherwise◌, dismiss, send_buffer}
use irc_protocol_server.Server.Counts.{put_client, written-found}
use irc_protocol_server.Server.Ensures.{
  Ensures, Ensures-bind, Ensures-both, Ensures-mono, Ensures-modify, Ensures-pure,
}
use irc_protocol_server.Server.Links.{WellFormed, Known}
use irc_protocol_server.Server.Quiet.{modify_client-Ensures, at_client, with_client}
use irc_protocol_server.Command.Pass.{turn_away}
use irc_protocol_server.Command.Irssi.{welcome}
use irc_protocol_server.Command.Dispatch.{not_register, sign_up}
use irc_protocol_server.Safety.Dispatch.{sign_up-WellFormed}

-- The commands that may come before registering; no word at all is none of them, and is passed over.
abbrev pub ComesEarly : List Text → Type 0
ComesEarly [] = Unit {0}
ComesEarly (verb ∷ words) = (verb ≡ text "PASS") ⊎ (verb ≡ text "NICK") ⊎ (verb ≡ text "USER")

-- The connection is dropped: what waits for the client and the text behind it are sent, the
-- descriptor is closed, and the client is out of the table. All else is as it was.
abbrev pub dropped : ℤ → Client → Text → Server → Server
dropped fd c line s = record s {
  client_list = erase_key fd s.client_list;
  sent = push_back s.sent (fd, c.recive_buf ++ line);
  closed = push_back s.closed fd;
}

abbrev pub refusal : Client → Text
refusal c = c.nick_name ++ text " :You have not registered\r\n"

dismiss-lem :
    (fd : ℤ) (s : Server)
    → Known s fd
    → Ensures (dismiss fd) s (λ _ t.
      t ≡ record s { client_list = erase_key fd s.client_list; closed = push_back s.closed fd })
unfolding dismiss
dismiss-lem fd s known =
    Ensures-bind {Q = λ _ t. t ≡ put_client fd reset_client s} _ _ s
      (modify_client-Ensures fd _ s known refl)
      λ _ t e. rw e (
        Ensures-modify _ (put_client fd reset_client s)
          (rw (erase_key-update fd reset_client s.client_list) refl))

send_buffer-lem :
    (fd : ℤ) (s : Server) (c : Client)
    → find fd s.client_list ≡ some c
    → Ensures
        (send_buffer fd)
        s
        (λ _ t. t ≡ record s { sent = push_back s.sent (fd, c.recive_buf) })
unfolding send_buffer
send_buffer-lem fd s c here =
    at_client s fd _ (c, here)
      λ d there.
        let same : d ≡ c = ground (arith, here, there) in
        Ensures-modify _ s
          (ap (λ (x : Client). record s { sent = push_back s.sent (fd, x.recive_buf) }) same)

not_register-dropped :
    (fd : ℤ) (s : Server) (c : Client)
    → find fd s.client_list ≡ some c
    → Ensures (not_register fd) s (λ _ t. t ≡ dropped fd c (refusal c) s)
unfolding not_register turn_away append_recive_buf
not_register-dropped fd s c here =
    let answer = λ (d : Client).
      append_recive_buf (d.nick_name ++ (text " :" ++ (text "You have not registered" ++ crlf)))
        d in
    let u = put_client fd answer s in
    let there = written-found fd answer s c here in
    Ensures-bind {Q = λ _ t. t ≡ u} _ _ s (modify_client-Ensures fd _ s (c, here) refl) λ _ t e.
      rw e (
        Ensures-bind _ _ u (send_buffer-lem fd u _ there) λ _ v e'. rw e' (
          Ensures-mono (dismiss-lem fd _ (_, there)) λ _ w e''.
            e''
            ∙ ap (λ m. record (dropped fd c (refusal c) s) { client_list = m })
                (erase_key-update fd answer s.client_list)))

welcome-nobody :
    (fd : ℤ) (s : Server) → find fd s.client_list ≡ none → Ensures (welcome fd) s (λ _ t. t ≡ s)
unfolding welcome
welcome-nobody fd s gone =
    with_client s fd _ (λ _. Ensures-pure tt s refl) λ c here. ground (arith, gone, here)

dropped-gone :
    (fd : ℤ) (c : Client) (s : Server) → find fd (dropped fd c (refusal c) s).client_list ≡ none
dropped-gone fd c s = ground (arith, find-erase_key fd fd s.client_list, int_key.beq_iff fd fd)

refused :
    (fd : ℤ) (s : Server) (c : Client)
    → find fd s.client_list ≡ some c
    → Ensures (not_register fd >>= λ _. welcome fd) s (λ _ t. t ≡ dropped fd c (refusal c) s)
refused fd s c here =
    Ensures-bind _ _ s (not_register-dropped fd s c here)
      λ _ t e. rw e (welcome-nobody fd (dropped fd c (refusal c) s) (dropped-gone fd c s))

-- A command of a client that is on the server and has not registered returns from well-formed
-- tables, and leaves them well-formed. Where the command is there and none of PASS, NICK and USER,
-- what waits for the client and the text of not_register are sent, its descriptor is closed, it is
-- out of the table, and nothing else changes.
pub sign_up-dropped :
    (fd : ℤ) (cmd_vector : List Text) (s : Server) (c : Client)
    → WellFormed s
    → find fd s.client_list ≡ some c
    → get_is_regist c ≡ false
    → Ensures
        (sign_up fd cmd_vector)
        s
        (λ _ t. WellFormed t × (ComesEarly cmd_vector ⊎ (t ≡ dropped fd c (refusal c) s)))
unfolding sign_up not_register when◌act◌otherwise◌
sign_up-dropped fd [] s c w here out =
    Ensures-mono (sign_up-WellFormed fd [] s c w here out) λ _ t w'. (w', inl tt)
sign_up-dropped fd (verb ∷ words) s c w here out =
    let safe = sign_up-WellFormed fd (verb ∷ words) s c w here out in
    elim (Bool-cases (verb == text "PASS")) [
      | inl is ↦
          Ensures-mono safe
            λ _ t w'. (w', inl (inl (ground (arith, is, text_key.beq_iff verb (text "PASS")))))
      | inr no_pass ↦ elim (Bool-cases (verb == text "NICK")) [
        | inl is ↦ Ensures-mono safe λ _ t w'.
            (w', inl (inr (inl (ground (arith, is, text_key.beq_iff verb (text "NICK"))))))
        | inr no_nick ↦ elim (Bool-cases (verb == text "USER")) [
          | inl is ↦ Ensures-mono safe λ _ t w'.
              (w', inl (inr (inr (ground (arith, is, text_key.beq_iff verb (text "USER"))))))
          | inr no_user ↦
              Ensures-mono
                (Ensures-both safe (rw (no_pass, no_nick, no_user) (refused fd s c here)))
                λ _ t (w', e). (w', inr e)
        ]
      ]
    ]
