-- ===== src/Safety/SignUp.antt =====
-- PASS and USER (IRC_PROTOCOL_SERVER/command), and the connections that they drop
use irc_protocol_server.Base.{
  ℤ, int_key, nat_key, Text, text_key, ◌≡◌, refl, false, some, List, [], ◌∷◌, find, arith, ◌∙◌, ap,
}
use irc_protocol_server.Client.{
  Client, append_recive_buf, set_regi_pass, set_regi_user, set_userinfo,
}
use irc_protocol_server.Error.{
  error_needmoreparams_461, error_passwdmismatch_464, error_alreadyregistred_462,
  error_notregistered_451,
}
use irc_protocol_server.Server.{Server, M, ◌>>=◌, modify_client}
use irc_protocol_server.Server.Ensures.{
  Ensures, Ensures-bind, Ensures-mono, Ensures-when, Ensures-gets,
}
use irc_protocol_server.Server.Links.{
  WellFormed, Known, Same-Known, Same-WellFormed, shape, shape_at-some, client_of_shape, registered,
  Same-trans, Shape,
}
use irc_protocol_server.Server.Quiet.{
  Quiet, IsQuiet, modify_client-Quiet, modify_client-Ensures, send_buffer-Quiet, at_client,
}
use irc_protocol_server.Server.Alters.{
  alter-WellFormed, dismiss-WellFormed, same-nicks, nothing-joined,
}
use irc_protocol_server.Command.Pass.{turn_away, pass_given, pass}
use irc_protocol_server.Command.User.{user, user_given, user_usage}

-- A quiet action keeps the tables well-formed.
pub Quiet-WellFormed :
    {A : Type 0} {m : M A} {s : Server} → WellFormed s → Quiet m s → Ensures m s (λ _. WellFormed)
Quiet-WellFormed w q = Ensures-mono q λ a t same. Same-WellFormed same w

pub answer-WellFormed :
    (fd : ℤ) (f : Client → Client) (s : Server)
    → WellFormed s
    → Known s fd
    → IsQuiet f
    → Ensures (modify_client fd f) s (λ _. WellFormed)
answer-WellFormed fd f s w known quiet = Quiet-WellFormed w (modify_client-Quiet fd f s quiet known)

-- Two replies
pub answers-WellFormed :
    (fd : ℤ) (f g : Client → Client) (s : Server)
    → WellFormed s
    → Known s fd
    → IsQuiet f
    → IsQuiet g
    → Ensures (modify_client fd f >>= λ _. modify_client fd g) s (λ _. WellFormed)
answers-WellFormed fd f g s w known quiet quiet' =
    Ensures-bind _ _ s (modify_client-Quiet fd f s quiet known) λ _ t same.
      answer-WellFormed fd g t (Same-WellFormed same w) (Same-Known fd same known) quiet'

-- A client that is not registered is turned away.
pub turn_away-WellFormed :
    (fd : ℤ) (f : Client → Client) (s : Server) (c : Client)
    → WellFormed s
    → find fd s.client_list ≡ some c
    → registered (shape c) ≡ false
    → IsQuiet f
    → Ensures (turn_away fd f) s (λ _. WellFormed)
unfolding turn_away
turn_away-WellFormed fd f s c w here out quiet =
    Ensures-bind _ _ s (modify_client-Quiet fd f s quiet (c, here)) λ _ t same.
      Ensures-bind _ _ t (send_buffer-Quiet fd t (Same-Known fd same (c, here))) λ _ u same'.
        let all = Same-trans same same' in
        let (d, there, e) =
          client_of_shape u fd (shape c) (all.clients fd ∙ shape_at-some s fd c here) in
        dismiss-WellFormed u fd (Same-WellFormed all w) (d, there)
          (nothing-joined u fd d there (
            ap (λ (r : Shape). r.channel_list) e
            ∙ w.outside fd (shape c) (shape_at-some s fd c here) out))

-- A flag of the registration is set.
pub flag-WellFormed :
    (fd : ℤ) (f : Client → Client) (s : Server)
    → WellFormed s
    → Known s fd
    → ((c : Client)
        → ((f c).channel_list ≡ c.channel_list)
          × ((f c).fd ≡ c.fd)
          × ((f c).nick_name ≡ c.nick_name)
          × (registered (shape (f c)) ≡ false → registered (shape c) ≡ false))
    → Ensures (modify_client fd f) s (λ _. WellFormed)
flag-WellFormed fd f s w (c, here) keeps =
    let (channels, key, _, out) = keeps c in
    modify_client-Ensures fd f s (c, here)
      (alter-WellFormed s w fd c here f channels key out
        (same-nicks s w fd c here f (λ d. (keeps d).2)))

pass_given-WellFormed :
    (fd : ℤ) (command_vec : List Text) (s : Server) (c : Client)
    → WellFormed s
    → find fd s.client_list ≡ some c
    → c.is_regi_pass ≡ false
    → Ensures (pass_given fd command_vec) s (λ _. WellFormed)
unfolding pass_given error_needmoreparams_461 append_recive_buf error_passwdmismatch_464
    set_regi_pass
pass_given-WellFormed fd [] s c w here out =
    answers-WellFormed fd _ _ s w (c, here) (λ d. refl) (λ d. refl)
pass_given-WellFormed fd (verb ∷ []) s c w here out =
    answers-WellFormed fd _ _ s w (c, here) (λ d. refl) (λ d. refl)
pass_given-WellFormed fd (verb ∷ given ∷ rest) s c w here out =
    Ensures-bind {Q = λ _ t. t ≡ s} _ _ s (Ensures-gets _ s refl) λ password t e. rw e (
      Ensures-when _ _ _ s
        (λ _. flag-WellFormed fd _ s w (c, here) (λ d. (refl, refl, refl, λ no. ground arith)))
        (λ _. turn_away-WellFormed fd _ s c w here (ground arith) (λ d. refl)))

-- PASS of a client that is on the server returns from well-formed tables, and leaves them well-
-- formed, whether it accepts the password or drops the connection.
pub pass-WellFormed :
    (fd : ℤ) (command_vec : List Text) (s : Server)
    → WellFormed s
    → Known s fd
    → Ensures (pass fd command_vec) s (λ _. WellFormed)
unfolding pass error_alreadyregistred_462
pass-WellFormed fd command_vec s w known = at_client s fd _ known λ c here.
    Ensures-when _ _ _ s (λ _. answer-WellFormed fd _ s w known (λ d. refl))
      λ out. pass_given-WellFormed fd command_vec s c w here out

user_given-WellFormed :
    (fd : ℤ) (cmd_vector : List Text) (s : Server)
    → WellFormed s
    → Known s fd
    → Ensures (user_given fd cmd_vector) s (λ _. WellFormed)
unfolding user_given user_usage error_needmoreparams_461 append_recive_buf set_userinfo
    set_regi_user
user_given-WellFormed fd [] s w known = answers-WellFormed fd _ _ s w known (λ d. refl) (λ d. refl)
user_given-WellFormed fd (a ∷ []) s w known =
    answers-WellFormed fd _ _ s w known (λ d. refl) (λ d. refl)
user_given-WellFormed fd (a ∷ b ∷ []) s w known =
    answers-WellFormed fd _ _ s w known (λ d. refl) (λ d. refl)
user_given-WellFormed fd (a ∷ b ∷ c ∷ []) s w known =
    answers-WellFormed fd _ _ s w known (λ d. refl) (λ d. refl)
user_given-WellFormed fd (a ∷ b ∷ c ∷ d ∷ []) s w known =
    answers-WellFormed fd _ _ s w known (λ d. refl) (λ d. refl)
user_given-WellFormed fd (a ∷ b ∷ c ∷ d ∷ e ∷ rest) s w known =
    Ensures-when _ _ _ s (λ _. answers-WellFormed fd _ _ s w known (λ d. refl) (λ d. refl))
      λ _. Ensures-bind _ _ s (modify_client-Quiet fd _ s (λ d. refl) known) λ _ t same.
        flag-WellFormed fd _ t (Same-WellFormed same w) (Same-Known fd same known)
          (λ d. (refl, refl, refl, λ no. ground arith))

-- USER of a client that is on the server returns from well-formed tables, and leaves them well-
-- formed.
pub user-WellFormed :
    (fd : ℤ) (cmd_vector : List Text) (s : Server)
    → WellFormed s
    → Known s fd
    → Ensures (user fd cmd_vector) s (λ _. WellFormed)
unfolding user error_alreadyregistred_462 error_notregistered_451
user-WellFormed fd cmd_vector s w known = at_client s fd _ known λ c here.
    Ensures-when _ _ _ s (λ _. answer-WellFormed fd _ s w known (λ d. refl))
      λ _.
        Ensures-when _ _ _ s (λ _. user_given-WellFormed fd cmd_vector s w known)
          λ out. turn_away-WellFormed fd _ s c w here (ground arith) (λ d. refl)
