-- ===== src/Safety/Dispatch.antt =====
-- `Command::run` of IRC_PROTOCOL_SERVER/src/Command.cpp, from the message that was read to the
-- handler
use irc_protocol_server.Base.{
  ℤ, int_key, nat_key, Text, text_key, ◌≡◌, refl, false, none, some, List, [], ◌∷◌, find, arith,
  inl, inr, Option, Option-cases,
}
use irc_protocol_server.Client.{
  Client, get_is_regist, append_recive_buf, set_eof_flag, write_eof_buffer, clear_eof_buffer,
}
use irc_protocol_server.Server.{Server, M, ◌>>=◌, modify_client}
use irc_protocol_server.Server.Ensures.{Ensures, Ensures-bind, Ensures-pure, Ensures-when}
use irc_protocol_server.Server.Keeps.{
  Keeps, Keeps-Ensures, Keeps-after, Keeps-bind, Keeps-when, Keeps-throw, Keeps-with_client,
  Keeps-at_client, Keeps-for_each,
}
use irc_protocol_server.Server.Links.{WellFormed, Known, Same-Known, shape, registered}
use irc_protocol_server.Server.Quiet.{
  IsQuiet, Quiet, Quiet-bind, Quiet-pure, modify_client-Quiet, with_client,
}
use irc_protocol_server.Command.Pass.{pass}
use irc_protocol_server.Command.Nick.{nick}
use irc_protocol_server.Command.User.{user}
use irc_protocol_server.Command.Parse.{Received, get_message, cmd_words}
use irc_protocol_server.Command.Irssi.{
  welcome, irssi_words, irssi_command, irssi_line, irssi_sign_up,
}
use irc_protocol_server.Command.Dispatch.{
  not_register, sign_up_command, sign_up, dispatch, take_eof_buffer, keep_partial, run_message, run,
}
use irc_protocol_server.Safety.SignUp.{
  Quiet-WellFormed, answer-WellFormed, turn_away-WellFormed, pass-WellFormed, user-WellFormed,
}
use irc_protocol_server.Safety.Nick.{nick-WellFormed}
use irc_protocol_server.Safety.SignIn.{sign_in-Keeps}
use irc_protocol_server.Safety.Connections.{index_client-WellFormed, disconnect_client-WellFormed}

welcome-WellFormed : (fd : ℤ) (s : Server) → WellFormed s → Ensures (welcome fd) s (λ _. WellFormed)
unfolding welcome append_recive_buf
welcome-WellFormed fd s w =
    with_client s fd _ (λ _. Ensures-pure tt s w)
      λ c here.
        Ensures-when _ _ _ s (λ _. answer-WellFormed fd _ s w (c, here) (λ d. refl))
          λ _. Ensures-pure tt s w

sign_up_command-WellFormed :
    (fd : ℤ) (cmd_vector : List Text) (s : Server) (c : Client)
    → WellFormed s
    → find fd s.client_list ≡ some c
    → registered (shape c) ≡ false
    → Ensures (sign_up_command fd cmd_vector) s (λ _. WellFormed)
unfolding not_register append_recive_buf
sign_up_command-WellFormed fd [] s c w here out = Ensures-pure tt s w
sign_up_command-WellFormed fd (verb ∷ words) s c w here out =
    Ensures-when _ _ _ s (λ _. pass-WellFormed fd _ s w (c, here))
      λ _.
        Ensures-when _ _ _ s (λ _. nick-WellFormed fd _ s w (c, here))
          λ _.
            Ensures-when _ _ _ s (λ _. user-WellFormed fd _ s w (c, here))
              λ _. turn_away-WellFormed fd _ s c w here out (λ d. refl)

-- A command of a client that is on the server and has not registered returns from well-formed
-- tables, and leaves them well-formed.
pub sign_up-WellFormed :
    (fd : ℤ) (cmd_vector : List Text) (s : Server) (c : Client)
    → WellFormed s
    → find fd s.client_list ≡ some c
    → get_is_regist c ≡ false
    → Ensures (sign_up fd cmd_vector) s (λ _. WellFormed)
unfolding sign_up get_is_regist
sign_up-WellFormed fd cmd_vector s c w here out =
    Ensures-bind _ _ s (sign_up_command-WellFormed fd cmd_vector s c w here out)
      λ _ t w'. welcome-WellFormed fd t w'

dispatch-Keeps :
    (fd : ℤ) (cmd_vector : List Text) (s : Server)
    → WellFormed s
    → Keeps (dispatch fd cmd_vector) s (λ _. WellFormed)
unfolding dispatch get_is_regist
dispatch-Keeps fd cmd_vector s w =
    Keeps-with_client s fd _ (λ _. Keeps-Ensures (Ensures-pure tt s w))
      λ c here.
        Keeps-when _ _ _ s
          (λ inside.
            sign_in-Keeps fd cmd_vector s
              (record { well = w; client = c; here = here; inside = inside }))
          λ out. Keeps-Ensures (sign_up-WellFormed fd cmd_vector s c w here out)

-- The handlers that start with a read of the client, where it may be gone
if_known :
    {A : Type 0} {m : M A} {Q : A → Server → Type 0} (fd : ℤ) (s : Server)
    → (Known s fd → Ensures m s Q)
    → (find fd s.client_list ≡ none → Keeps m s Q)
    → Keeps m s Q
if_known fd s there gone = elim (Option-cases (find fd s.client_list)) [
  | inl absent ↦ gone absent
  | inr known ↦ Keeps-Ensures (there known)
]

irssi_command-Keeps :
    (fd : ℤ) (words : Option (List Text)) (s : Server)
    → WellFormed s
    → Keeps (irssi_command fd words) s (λ _. WellFormed)
unfolding pass nick user
irssi_command-Keeps fd none s w = Keeps-throw s
irssi_command-Keeps fd (some []) s w = Keeps-Ensures (Ensures-pure tt s w)
irssi_command-Keeps fd (some (verb ∷ words)) s w =
    Keeps-when _ _ _ s
      (λ _.
        if_known fd s (λ known. pass-WellFormed fd _ s w known)
          λ gone. Keeps-at_client s fd _ λ c here. ground (arith, gone, here))
      λ _.
        Keeps-when _ _ _ s
          (λ _.
            if_known fd s (λ known. nick-WellFormed fd _ s w known)
              λ gone. Keeps-at_client s fd _ λ c here. ground (arith, gone, here))
          λ _.
            Keeps-when _ _ _ s
              (λ _.
                if_known fd s (λ known. user-WellFormed fd _ s w known)
                  λ gone. Keeps-at_client s fd _ λ c here. ground (arith, gone, here))
              λ _. Keeps-Ensures (Ensures-pure tt s w)

irssi_sign_up-Keeps :
    (fd : ℤ) (message : Text) (s : Server)
    → WellFormed s
    → Keeps (irssi_sign_up fd message) s (λ _. WellFormed)
unfolding irssi_sign_up irssi_line
irssi_sign_up-Keeps fd message s w =
    Keeps-bind _ _ s
      (Keeps-for_each (λ line t w'. irssi_command-Keeps fd (irssi_words line) t w') _ s w)
      λ _ t w'. Keeps-Ensures (welcome-WellFormed fd t w')

-- Two quiet writes
two-Quiet :
    (fd : ℤ) (f g : Client → Client) (s : Server)
    → IsQuiet f
    → IsQuiet g
    → Known s fd
    → Quiet (modify_client fd f >>= λ _. modify_client fd g) s
two-Quiet fd f g s quiet quiet' known =
    Quiet-bind _ _ s (modify_client-Quiet fd f s quiet known)
      λ _ t same. modify_client-Quiet fd g t quiet' (Same-Known fd same known)

keep_partial-WellFormed :
    (fd : ℤ) (message : Text) (s : Server)
    → WellFormed s
    → Ensures (keep_partial fd message) s (λ _. WellFormed)
unfolding keep_partial write_eof_buffer set_eof_flag
keep_partial-WellFormed fd message s w =
    Ensures-bind _ _ s (index_client-WellFormed fd s w)
      λ c t (w', here). Quiet-WellFormed w' (two-Quiet fd _ _ t (λ d. refl) (λ d. refl) (c, here))

pub take_eof_buffer-WellFormed :
    (fd : ℤ) (message : Text) (s : Server)
    → WellFormed s
    → Ensures (take_eof_buffer fd message) s (λ _. WellFormed)
unfolding take_eof_buffer clear_eof_buffer set_eof_flag
take_eof_buffer-WellFormed fd message s w =
    Ensures-bind _ _ s (index_client-WellFormed fd s w) λ c t (w', here).
      Ensures-when _ _ _ t
        (λ _. Quiet-WellFormed w' (
          Quiet-bind _ _ t (modify_client-Quiet fd _ t (λ d. refl) (c, here)) λ _ u same.
            Quiet-bind _ _ u (modify_client-Quiet fd _ u (λ d. refl) (Same-Known fd same (c, here)))
              λ _ v _. Quiet-pure _ v))
        λ _. Ensures-pure message t w'

run_message-Keeps :
    (fd : ℤ) (message : Text) (s : Server)
    → WellFormed s
    → Keeps (run_message fd message) s (λ _. WellFormed)
unfolding run_message
run_message-Keeps fd message s w =
    Keeps-when _ _ _ s (λ _. Keeps-Ensures (Ensures-pure tt s w))
      λ _.
        Keeps-when _ _ _ s (λ _. Keeps-Ensures (keep_partial-WellFormed fd message s w))
          λ _.
            Keeps-when _ _ _ s
              (λ _.
                Keeps-bind _ _ s (irssi_sign_up-Keeps fd message s w)
                  λ _ t w'. dispatch-Keeps fd [] t w')
              λ _.
                Keeps-after _ _ s (take_eof_buffer-WellFormed fd message s w)
                  λ whole t w'. dispatch-Keeps fd (cmd_words whole) t w'

pub get_message-WellFormed :
    (fd : ℤ) (received : Received) (s : Server)
    → WellFormed s
    → Ensures (get_message fd received) s (λ _. WellFormed)
unfolding get_message
get_message-WellFormed fd none s w =
    Ensures-bind _ _ s (disconnect_client-WellFormed fd s w) λ _ t w'. Ensures-pure [] t w'
get_message-WellFormed fd (some []) s w =
    Ensures-bind _ _ s (disconnect_client-WellFormed fd s w) λ _ t w'. Ensures-pure [] t w'
get_message-WellFormed fd (some (c ∷ rest)) s w = Ensures-pure _ s w

-- `run` ends for whatever recv gave, and where it returns, the tables are well-formed.
pub run-Keeps :
    (fd : ℤ) (received : Received) (s : Server)
    → WellFormed s
    → Keeps (run fd received) s (λ _. WellFormed)
unfolding run
run-Keeps fd received s w =
    Keeps-after _ _ s (get_message-WellFormed fd received s w)
      λ message t w'. run_message-Keeps fd message t w'
