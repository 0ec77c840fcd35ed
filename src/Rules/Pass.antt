-- ===== src/Rules/Pass.antt =====
-- The password in IRC_PROTOCOL_SERVER/command/Pass.cpp
use irc_protocol_server.Server.Counts.{put_client}
use irc_protocol_server.Base.{
  ℤ, int_key, Text, text_key, ◌==◌, ◌≡◌, ◌↔◌, refl, ◌∙◌, ap, true, false, none, some, List, [], ◌∷◌,
  get_elem?, find, find-update, find-erase_key, arith,
}
use irc_protocol_server.Client.{Client, append_recive_buf, set_regi_pass}
use irc_protocol_server.Error.{error_needmoreparams_461, error_passwdmismatch_464}
use irc_protocol_server.Server.{Server, ◌>>=◌, modify_client, dismiss}
use irc_protocol_server.Server.Ensures.{
  Ensures, Ensures-bind, Ensures-mono, Ensures-when, Ensures-gets, Ensures-modify,
}
use irc_protocol_server.Server.Links.{
  Known, Same, Same-Known, Shape, shape, shape_at-some, client_of_shape,
}
use irc_protocol_server.Server.Quiet.{
  Quiet-bind, IsQuiet, modify_client-Quiet, modify_client-Ensures, send_buffer-Quiet, at_client,
}
use irc_protocol_server.Command.Pass.{turn_away, pass_given, pass}

-- The client at `fd` has given the password.
abbrev pub HasPassed : ℤ → Server → Type 0
HasPassed fd s = (d : Client) × (find fd s.client_list ≡ some d) × (d.is_regi_pass ≡ true)

dismiss-gone :
    (fd : ℤ) (s : Server)
    → Known s fd
    → Ensures (dismiss fd) s (λ _ t. find fd t.client_list ≡ none)
unfolding dismiss
dismiss-gone fd s known =
    Ensures-bind {Q = λ _ _. Unit {0}} _ _ s (modify_client-Ensures fd _ s known tt) λ _ t _.
      Ensures-modify _ t (ground (arith, find-erase_key fd fd t.client_list, int_key.beq_iff fd fd))

turn_away-gone :
    (fd : ℤ) (f : Client → Client) (s : Server)
    → Known s fd
    → IsQuiet f
    → Ensures (turn_away fd f) s (λ _ t. find fd t.client_list ≡ none)
unfolding turn_away
turn_away-gone fd f s known quiet =
    Ensures-bind _ _ s (modify_client-Quiet fd f s quiet known) λ _ t same.
      let known' = Same-Known fd same known in
      Ensures-bind _ _ t (send_buffer-Quiet fd t known')
        λ _ u same'. dismiss-gone fd u (Same-Known fd same' known')

-- Two replies do not let a client pass.
still_out :
    (fd : ℤ) (s t : Server) (c : Client)
    → find fd s.client_list ≡ some c
    → c.is_regi_pass ≡ false
    → Same s t
    → HasPassed fd t
    → true ≡ false
still_out fd s t c here out same (d, there, passed) =
    let (e, there', keeps) =
      client_of_shape t fd (shape c) (same.clients fd ∙ shape_at-some s fd c here) in
    ground (arith, ap (λ (r : Shape). r.is_regi_pass) keeps)

replies-out :
    (fd : ℤ) (f g : Client → Client) (s : Server) (c : Client) (given : List Text)
    → find fd s.client_list ≡ some c
    → c.is_regi_pass ≡ false
    → IsQuiet f
    → IsQuiet g
    → get_elem? given 1 ≡ none
    → Ensures
        (modify_client fd f >>= λ _. modify_client fd g)
        s
        (λ _ t. HasPassed fd t ↔ (get_elem? given 1 ≡ some s.password))
replies-out fd f g s c given here out quiet quiet' missing =
    Ensures-mono
      (Quiet-bind _ (λ _. modify_client fd g) s (modify_client-Quiet fd f s quiet (c, here))
        λ _ t same. modify_client-Quiet fd g t quiet' (Same-Known fd same (c, here)))
      λ _ t same.
        ((λ passed. ground (arith, still_out fd s t c here out same passed)), λ e. ground arith)

let_in-HasPassed :
    (fd : ℤ) (s : Server) (c : Client) (given : Text)
    → find fd s.client_list ≡ some c
    → (given == s.password) ≡ true
    → HasPassed fd (put_client fd (set_regi_pass true) s) ↔ (some given ≡ some s.password)
unfolding set_regi_pass
let_in-HasPassed fd s c given here right = (
  (λ passed. ground (arith, text_key.beq_iff given s.password)),
  λ e. (
    set_regi_pass true c,
    ground
        (arith, find-update fd fd (set_regi_pass true) s.client_list, here, int_key.beq_iff fd fd),
    refl,
  ),
)

gone-HasPassed :
    (fd : ℤ) (t : Server) (given password : Text)
    → find fd t.client_list ≡ none
    → (given == password) ≡ false
    → HasPassed fd t ↔ (some given ≡ some password)
gone-HasPassed fd t given password gone wrong =
    ((λ passed. ground (arith, passed.1)), λ e. ground (arith, text_key.beq_iff given password))

pass_given-HasPassed :
    (fd : ℤ) (command_vec : List Text) (s : Server) (c : Client)
    → find fd s.client_list ≡ some c
    → c.is_regi_pass ≡ false
    → Ensures
        (pass_given fd command_vec)
        s
        (λ _ t. HasPassed fd t ↔ (get_elem? command_vec 1 ≡ some s.password))
unfolding pass_given error_needmoreparams_461 append_recive_buf error_passwdmismatch_464
pass_given-HasPassed fd [] s c here out =
    replies-out fd _ _ s c [] here out (λ d. refl) (λ d. refl) refl
pass_given-HasPassed fd (verb ∷ []) s c here out =
    replies-out fd _ _ s c (verb ∷ []) here out (λ d. refl) (λ d. refl) refl
pass_given-HasPassed fd (verb ∷ given ∷ rest) s c here out =
    Ensures-bind {Q = λ p t. (p ≡ s.password) × (t ≡ s)} _ _ s (Ensures-gets _ s (refl, refl))
      λ p t (e, same).
        rw (e, same)
          (Ensures-when _ _ _ s
            (λ right.
              modify_client-Ensures fd _ s (c, here) (let_in-HasPassed fd s c given here right))
            λ wrong.
              Ensures-mono (turn_away-gone fd _ s (c, here) (λ d. refl))
                λ _ u gone. gone-HasPassed fd u given s.password gone wrong)

-- PASS of a client on the server that has not passed yet returns, and lets it pass exactly if the
-- word behind PASS is the password of the server.
pub pass-HasPassed :
    (fd : ℤ) (command_vec : List Text) (s : Server) (c : Client)
    → find fd s.client_list ≡ some c
    → c.is_regi_pass ≡ false
    → Ensures
        (pass fd command_vec)
        s
        (λ _ t. HasPassed fd t ↔ (get_elem? command_vec 1 ≡ some s.password))
unfolding pass
pass-HasPassed fd command_vec s c here out =
    at_client s fd _ (c, here)
      λ d there.
        Ensures-when _ _ _ s (λ passed. ground (arith, there, here, out, passed))
          λ _. pass_given-HasPassed fd command_vec s c here out
