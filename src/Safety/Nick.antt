-- ===== src/Safety/Nick.antt =====
-- IRC_PROTOCOL_SERVER/command/Nick.cpp, the handler
use irc_protocol_server.Safety.Renaming.{free_nickname-unused}
use irc_protocol_server.Server.Nicknames.{with_nickname-nobody}
use irc_protocol_server.Server.Counts.{written-found}
use irc_protocol_server.Server.Alters.{alter-WellFormed, fresh-nicks}
use irc_protocol_server.Base.{
  ℤ, int_key, nat_key, Text, text, text_key, ◌≡◌, refl, ap, true, none, some, List, [], ◌∷◌, arith,
  sym, ◌∙◌, ◌≢◌,
}
use irc_protocol_server.Client.{Client, append_recive_buf, set_regi_nick, set_nickname}
use irc_protocol_server.Error.{
  error_nonicknamegiven_431, error_erroneusnickname_432, error_nicknameinuse_433,
  error_notregistered_451,
}
use irc_protocol_server.Server.{Server, for_each, with_nickname, modify_client, ◌>>=◌}
use irc_protocol_server.Server.Ensures.{
  Ensures, Ensures-bind, Ensures-when, Ensures-gets, Ensures-modify,
}
use irc_protocol_server.Server.Links.{
  WellFormed, Known, Same-Known, Same-WellFormed, Same-of_tables, Shape, shape_at, Same-trans,
  client_of_shape,
}
use irc_protocol_server.Server.Quiet.{
  Quiet, modify_client-Quiet, at_client, with_channel, Quiet-pure, Quiet-bind,
  modify_client-Ensures,
}
use irc_protocol_server.Util.Quiet.{message_all_channel-Quiet}
use irc_protocol_server.Command.Nick.{
  announce_nick, change_nick, nick_given, nick, announce, announce_to, nick_checked,
}
use irc_protocol_server.Safety.SignUp.{
  answer-WellFormed, answers-WellFormed, turn_away-WellFormed, flag-WellFormed,
}

-- One channel's NICK line, or none
announce_nick-Quiet :
    (fd : ℤ) (name channel_name : Text) (s : Server)
    → WellFormed s
    → Known s fd
    → Quiet (announce_nick fd name channel_name) s
unfolding announce_nick
announce_nick-Quiet fd name channel_name s w known =
    with_channel s channel_name _ (λ _. Quiet-pure tt s)
      λ ch _. message_all_channel-Quiet fd ch.channel_name s w known (text "NICK") name

announce_all-Quiet :
    (fd : ℤ) (name : Text) (channels : List Text) (s : Server)
    → WellFormed s
    → Known s fd
    → Quiet (for_each channels (announce_nick fd name)) s
unfolding for_each
announce_all-Quiet fd name [] s w known = Quiet-pure tt s
announce_all-Quiet fd name (channel ∷ channels) s w known =
    Quiet-bind (announce_nick fd name channel) _ s (announce_nick-Quiet fd name channel s w known)
      λ _ t same.
        announce_all-Quiet fd name channels t (Same-WellFormed same w) (Same-Known fd same known)

announce-Quiet :
    (fd : ℤ) (verb name : Text) (client : Client) (s : Server)
    → WellFormed s
    → Known s fd
    → Quiet (announce fd verb name client) s
unfolding append_recive_buf
announce-Quiet fd verb name client s w known = go client.channel_list
  where
    go : (channels : List Text) → Quiet (announce_to fd verb name client channels) s
    go [] = modify_client-Quiet fd _ s (λ d. refl) known
    go (channel ∷ channels) = announce_all-Quiet fd name (channel ∷ channels) s w known

-- Nobody on the server has the nickname.
abbrev pub Unused : Text → Server → Type 0
Unused name s = (j : ℤ) (r : Shape) → shape_at s j ≡ some r → r.nick_name ≢ name

pub Unused-of_search :
    (name : Text) (s : Server) → with_nickname name s.client_list ≡ none → Unused name s
Unused-of_search name s e j r at_j same =
    let (c, here, is_shape) = client_of_shape s j r at_j in
    with_nickname-nobody name s.client_list j c e here
      (ap (λ (q : Shape). q.nick_name) is_shape ∙ same)

rename-WellFormed :
    (fd : ℤ) (name : Text) (s : Server)
    → WellFormed s
    → Known s fd
    → Unused name s
    → Ensures
        (modify_client fd (set_nickname name) >>= λ _. modify_client fd (set_regi_nick true))
        s
        (λ _. WellFormed)
unfolding set_nickname set_regi_nick
rename-WellFormed fd name s w (c, here) unused =
    Ensures-bind {Q = λ _ t. WellFormed t × Known t fd} _ _ s
      (modify_client-Ensures fd _ s (c, here)
        (
          alter-WellFormed s w fd c here (set_nickname name) refl refl (λ no. no)
              (fresh-nicks s w fd c here name unused),
          (_, written-found fd (set_nickname name) s c here),
        ))
      λ _ t (w', known).
        flag-WellFormed fd _ t w' known (λ d. (refl, refl, refl, λ no. ground arith))

change_nick-WellFormed :
    (fd : ℤ) (verb name : Text) (s : Server)
    → WellFormed s
    → Known s fd
    → Unused name s
    → Ensures (change_nick fd verb name) s (λ _. WellFormed)
unfolding change_nick
change_nick-WellFormed fd verb name s w known unused = at_client s fd _ known λ client here.
    Ensures-bind _ _ s (Ensures-modify _ s (Same-of_tables refl refl)) λ _ t same.
      Ensures-bind _ _ t
        (announce-Quiet fd verb name client t (Same-WellFormed same w) (Same-Known fd same known))
        λ _ u same'.
          let all = Same-trans same same' in
          rename-WellFormed fd name u (Same-WellFormed all w) (Same-Known fd all known)
            (λ j r e. unused j r (sym (all.clients j) ∙ e))

nick_checked-WellFormed :
    (fd : ℤ) (verb name : Text) (s : Server)
    → WellFormed s
    → Known s fd
    → Unused name s
    → Ensures (nick_checked fd verb (some name)) s (λ _. WellFormed)
unfolding append_recive_buf error_erroneusnickname_432 error_nicknameinuse_433
nick_checked-WellFormed fd verb name s w known unused =
    Ensures-when _ _ _ s (λ _. answers-WellFormed fd _ _ s w known (λ d. refl) (λ d. refl))
      λ _. Ensures-bind {Q = λ _ t. t ≡ s} _ _ s (Ensures-gets _ s refl) λ free t e. rw e (
        Ensures-when _ _ _ s (λ _. change_nick-WellFormed fd verb name s w known unused)
          λ _. answer-WellFormed fd _ s w known (λ d. refl))

nick_given-WellFormed :
    (fd : ℤ) (cmd_vector : List Text) (s : Server)
    → WellFormed s
    → Known s fd
    → Ensures (nick_given fd cmd_vector) s (λ _. WellFormed)
unfolding nick_given error_nonicknamegiven_431
nick_given-WellFormed fd [] s w known = answer-WellFormed fd _ s w known (λ d. refl)
nick_given-WellFormed fd (verb ∷ []) s w known = answer-WellFormed fd _ s w known (λ d. refl)
nick_given-WellFormed fd (verb ∷ wanted ∷ rest) s w known =
    let (name, found, free) = free_nickname-unused wanted s.client_list in
    Ensures-bind {Q = λ o t. (o ≡ some name) × (t ≡ s)} _ _ s (Ensures-gets _ s (found, refl))
      λ o t (e, same).
        rw (e, same) (nick_checked-WellFormed fd verb name s w known (Unused-of_search name s free))

-- NICK of a client that is on the server returns from well-formed tables, and leaves them well-
-- formed; its search for a free nickname ends.
pub nick-WellFormed :
    (fd : ℤ) (cmd_vector : List Text) (s : Server)
    → WellFormed s
    → Known s fd
    → Ensures (nick fd cmd_vector) s (λ _. WellFormed)
unfolding nick error_notregistered_451
nick-WellFormed fd cmd_vector s w known = at_client s fd _ known λ c here.
    Ensures-when _ _ _ s (λ _. nick_given-WellFormed fd cmd_vector s w known)
      λ out. turn_away-WellFormed fd _ s c w here (ground arith) (λ d. refl)
