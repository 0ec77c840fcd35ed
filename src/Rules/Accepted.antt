-- ===== src/Rules/Accepted.antt =====
-- IRC_PROTOCOL_SERVER/command/Nick.cpp, up to the change of a nickname that is valid and free
use irc_protocol_server.Base.{
  suc, ℤ, int_key, Text, text_key, ◌≡◌, refl, true, none, some, List, ◌∷◌, Map, find, length, arith,
}
use irc_protocol_server.Client.{Client}
use irc_protocol_server.Server.{Server, with_nickname}
use irc_protocol_server.Server.Ensures.{Ensures, Ensures-bind, Ensures-when, Ensures-gets}
use irc_protocol_server.Server.Quiet.{at_client}
use irc_protocol_server.Command.Nick.{
  free_nickname, nick_name_validate, change_nick, nick_given, nick,
}
use irc_protocol_server.Safety.Renaming.{nickname_duplicate-unused}

-- Its first round ends the search.
free_nickname-some :
    (name : Text) (m : Map ℤ Client)
    → with_nickname name m ≡ none
    → free_nickname (suc (length m)) name m ≡ some name
unfolding free_nickname
free_nickname-some name m free = rw (free, free_nickname) refl

pub nick-change_nick :
    {Q : Unit {0} → Server → Type 0} (fd : ℤ) (verb name : Text) (rest : List Text) (s : Server)
    (c : Client)
    → find fd s.client_list ≡ some c
    → c.is_regi_pass ≡ true
    → with_nickname name s.client_list ≡ none
    → nick_name_validate name ≡ true
    → Ensures (change_nick fd verb name) s Q
    → Ensures (nick fd (verb ∷ name ∷ rest)) s Q
unfolding nick nick_given
nick-change_nick fd verb name rest s c here passed free valid changed =
    at_client s fd _ (c, here)
      λ d there.
        Ensures-when _ _ _ s
          (λ _.
            Ensures-bind {Q = λ o t. (o ≡ some name) × (t ≡ s)} _ _ s
              (Ensures-gets _ s (free_nickname-some name s.client_list free, refl))
              λ o t (e, same).
                rw (e, same)
                  (Ensures-when _ _ _ s (λ bad. ground (arith, bad, valid))
                    λ _.
                      Ensures-bind {Q = λ b w. (b ≡ true) × (w ≡ s)} _ _ s
                        (Ensures-gets _ s (nickname_duplicate-unused name s.client_list free, refl))
                        λ b w (unused, same'). rw same' (
                          Ensures-when _ _ _ s (λ _. changed)
                            λ used. ground (arith, used, unused))))
          λ out. ground (arith, out, there, here, passed)
