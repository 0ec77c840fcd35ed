-- ===== src/Rules/Registration.antt =====
-- The registration of a client: PASS, NICK and USER of IRC_PROTOCOL_SERVER/command in this order
use irc_protocol_server.Rules.Accepted.{nick-change_nick}
use irc_protocol_server.Base.{
  ℤ, int_key, nat_key, Text, text, text_key, ◌≡◌, refl, Bool, true, false, none, some, List, [],
  ◌∷◌, find, update, Map, arith,
}
use irc_protocol_server.Client.{
  Client, new_client, append_recive_buf, set_regi_pass, set_regi_nick, set_regi_user, set_nickname,
  set_userinfo, get_is_regist,
}
use irc_protocol_server.Server.{Server, ◌>>=◌, modify_client, with_nickname}
use irc_protocol_server.Server.Ensures.{
  Ensures, Ensures-bind, Ensures-mono, Ensures-when, Ensures-gets, Ensures-modify,
}
use irc_protocol_server.Server.Counts.{written-found}
use irc_protocol_server.Server.Quiet.{at_client, modify_client-Ensures}
use irc_protocol_server.Command.Pass.{pass, pass_given}
use irc_protocol_server.Command.Nick.{
  nick, nick_name_validate, nickname_duplicate, change_nick, announce_to,
}
use irc_protocol_server.Command.User.{user, user_given}

-- How far a client has come
record Progress : Type 0 where
  passed : Bool
  named : Bool
  told : Bool

-- The client is there, in no channel, with the flags of its progress and its nickname.
abbrev Stands : ℤ → Progress → Text → Server → Type 0
Stands fd p name s =
    (c : Client) × (find fd s.client_list ≡ some c)
    × (c.is_regi_pass ≡ p.passed)
    × (c.is_regi_nick ≡ p.named)
    × (c.is_regi_user ≡ p.told)
    × (c.nick_name ≡ name)
    × (c.channel_list ≡ [])

with_nickname-update :
    (name : Text) (fd : ℤ) (f : Client → Client) (m : Map ℤ Client)
    → ((c : Client) → (f c).nick_name ≡ c.nick_name)
    → with_nickname name m ≡ none
    → with_nickname name (update fd f m) ≡ none
unfolding with_nickname update
with_nickname-update name fd f [] keep free = refl
with_nickname-update name fd f ((j, c) ∷ m) keep free =
    ground (arith, with_nickname-update name fd f m keep, keep c)

nickname_duplicate-none :
    (name : Text) (m : Map ℤ Client)
    → with_nickname name m ≡ none
    → nickname_duplicate name m ≡ true
unfolding with_nickname nickname_duplicate
nickname_duplicate-none name [] free = refl
nickname_duplicate-none name ((j, c) ∷ m) free = ground (arith, nickname_duplicate-none name m)

pass-Stands :
    (fd : ℤ) (verb name old : Text) (s : Server)
    → Stands fd (record { passed = false; named = false; told = false }) old s
    → with_nickname name s.client_list ≡ none
    → Ensures (pass fd (verb ∷ s.password ∷ [])) s (λ _ t.
      Stands fd (record { passed = true; named = false; told = false }) old t
      × (with_nickname name t.client_list ≡ none))
unfolding pass pass_given set_regi_pass
pass-Stands fd verb name old s (c, here, out, n, u, is_old, nothing) free =
    at_client s fd _ (c, here)
      λ d there.
        Ensures-when _ _ _ s (λ in'. ground (arith, in', there, here, out))
          λ _.
            Ensures-bind {Q = λ p t. (p ≡ s.password) × (t ≡ s)} _ _ s
              (Ensures-gets _ s (refl, refl))
              λ p t (e, same).
                rw (e, same)
                  (Ensures-when _ _ _ s
                    (λ _.
                      modify_client-Ensures fd _ s (c, here)
                        (
                          (
                            _,
                            written-found fd (set_regi_pass true) s c here,
                            refl,
                            n,
                            u,
                            is_old,
                            nothing,
                          ),
                          with_nickname-update name fd (set_regi_pass true) s.client_list
                              (λ a. refl) free,
                        ))
                    λ wrong. ground (arith, wrong, text_key.beq_iff s.password s.password))

-- One write to a client that is there, and what it is afterwards
write-found :
    (fd : ℤ) (f : Client → Client) (s : Server) (c : Client)
    → find fd s.client_list ≡ some c
    → Ensures (modify_client fd f) s (λ _ t. find fd t.client_list ≡ some (f c))
write-found fd f s c here = modify_client-Ensures fd f s (c, here) (written-found fd f s c here)

-- The reply to a client that is in no channel
announced :
    (fd : ℤ) (verb name : Text) (d : Client) (t : Server) (channels : List Text)
    → find fd t.client_list ≡ some d
    → channels ≡ []
    → Ensures
        (announce_to fd verb name d channels)
        t
        (λ _ u. (line : Text) × (find fd u.client_list ≡ some (append_recive_buf line d)))
announced fd verb name d t [] there nothing =
    Ensures-mono (write-found fd _ t d there) λ _ u found. (_, found)
announced fd verb name d t (x ∷ xs) there nothing = ground (arith, nothing)

change_nick-Stands :
    (fd : ℤ) (verb name old : Text) (s : Server)
    → Stands fd (record { passed = true; named = false; told = false }) old s
    → Ensures
        (change_nick fd verb name)
        s
        (λ _. Stands fd (record { passed = true; named = true; told = false }) name)
unfolding change_nick append_recive_buf set_nickname set_regi_nick
change_nick-Stands fd verb name old s (c, here, p, n, u, is_old, nothing) =
    at_client s fd _ (c, here)
      λ d there.
        Ensures-bind {Q = λ _ t. find fd t.client_list ≡ some d} _ _ s (Ensures-modify _ s there)
          λ _ t there'.
            Ensures-bind _ _ t
              (announced fd verb name d t d.channel_list there'
                (ground (arith, there, here, nothing)))
              λ _ v (line, found). Ensures-bind _ _ v (write-found fd _ v _ found) λ _ v' found'.
                Ensures-mono (write-found fd _ v' _ found') λ _ w found''. (
                  _,
                  found'',
                  ground (arith, there, here, p),
                  refl,
                  ground (arith, there, here, u),
                  refl,
                  ground (arith, there, here, nothing),
                )

nick-Stands :
    (fd : ℤ) (verb name old : Text) (s : Server)
    → Stands fd (record { passed = true; named = false; told = false }) old s
    → with_nickname name s.client_list ≡ none
    → nick_name_validate name ≡ true
    → Ensures
        (nick fd (verb ∷ name ∷ []))
        s
        (λ _. Stands fd (record { passed = true; named = true; told = false }) name)
nick-Stands fd verb name old s (c, here, p, n, u, is_old, nothing) free valid =
    nick-change_nick fd verb name [] s c here p free valid
      (change_nick-Stands fd verb name old s (c, here, p, n, u, is_old, nothing))

user-Stands :
    (fd : ℤ) (verb name u h v r : Text) (s : Server)
    → Stands fd (record { passed = true; named = true; told = false }) name s
    → Ensures
        (user fd (verb ∷ u ∷ h ∷ v ∷ r ∷ []))
        s
        (λ _. Stands fd (record { passed = true; named = true; told = true }) name)
unfolding user user_given set_userinfo set_regi_user
user-Stands fd verb name u h v r s (c, here, p, n, told, is_name, nothing) =
    at_client s fd _ (c, here)
      λ d there.
        Ensures-when _ _ _ s (λ again. ground (arith, again, there, here, told))
          λ _.
            Ensures-when _ _ _ s
              (λ _.
                Ensures-when _ _ _ s (λ usage. ground (arith, usage))
                  λ _. Ensures-bind _ _ s (write-found fd _ s c here) λ _ t here'.
                    Ensures-mono (write-found fd _ t _ here')
                      λ _ w here''. (_, here'', p, n, refl, is_name, nothing))
              λ out. ground (arith, out, there, here, p)

-- A client that has just connected, and gives the password of the server, a nickname that is valid
-- and that nobody has, and a USER line of five words, is registered then under this nickname.
pub user-get_is_regist :
    (fd : ℤ) (flag : Bool) (name u h v r : Text) (s : Server)
    → find fd s.client_list ≡ some (new_client fd flag)
    → with_nickname name s.client_list ≡ none
    → nick_name_validate name ≡ true
    → Ensures
        (pass fd (text "PASS" ∷ s.password ∷ []) >>= λ _.
          (nick fd (text "NICK" ∷ name ∷ []) >>= λ _. user fd (text "USER" ∷ u ∷ h ∷ v ∷ r ∷ [])))
        s
        (λ _ t.
          (d : Client) × (find fd t.client_list ≡ some d)
          × (get_is_regist d ≡ true)
          × (d.nick_name ≡ name))
unfolding get_is_regist new_client
user-get_is_regist fd flag name u h v r s here free valid =
    Ensures-bind _ _ s
      (pass-Stands fd (text "PASS") name (text "*") s (_, here, refl, refl, refl, refl, refl) free)
      λ _ t (stands, free').
        Ensures-bind _ _ t (nick-Stands fd (text "NICK") name (text "*") t stands free' valid)
          λ _ w stands'.
            Ensures-mono (user-Stands fd (text "USER") name u h v r w stands')
              λ _ x (d, there, p, n, told, is_name, _).
                (d, there, ground (arith, p, n, told), is_name)
