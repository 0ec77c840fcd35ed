-- ===== src/Server/Nicknames.antt =====
-- `Server::findClient` of IRC_PROTOCOL_SERVER/src/Server.cpp: what the search by nickname finds
use irc_protocol_server.Base.{
  ℤ, int_key, Text, text_key, ◌==◌, ◌≡◌, ◌≢◌, none, some, [], ◌∷◌, Map, find, count, Distinct,
  arith, Bool-cases, inl, inr, count-keys-some, tail-Distinct,
}
use irc_protocol_server.Client.{Client}
use irc_protocol_server.Server.Tables.{with_nickname}

pub with_nickname-name :
    (name : Text) (m : Map ℤ Client) (fd : ℤ) (c : Client)
    → with_nickname name m ≡ some (fd, c)
    → c.nick_name ≡ name
unfolding with_nickname
with_nickname-name name [] fd c e = ground arith
with_nickname-name name ((j, d) ∷ m) fd c e =
    ground (arith, with_nickname-name name m fd c, text_key.beq_iff d.nick_name name)

-- What the search finds is a client of the server.
pub with_nickname-Known :
    (name : Text) (m : Map ℤ Client) (p : ℤ × Client)
    → with_nickname name m ≡ some p
    → (c : Client) × (find p.0 m ≡ some c)
unfolding with_nickname find
with_nickname-Known name [] p e = ground arith
with_nickname-Known name ((fd, c) ∷ m) p e = elim (Bool-cases (fd == p.0)) [
  | inl same ↦ (c, ground arith)
  | inr other ↦
      let (d, found) = with_nickname-Known name m p (ground (arith, int_key.beq_iff fd p.0)) in
      (d, ground arith)
]

-- It is the client at its key.
pub with_nickname-found :
    (name : Text) (m : Map ℤ Client) (fd : ℤ) (c : Client)
    → Distinct m
    → with_nickname name m ≡ some (fd, c)
    → find fd m ≡ some c
unfolding with_nickname find count
with_nickname-found name [] fd c once e = ground arith
with_nickname-found name ((j, d) ∷ m) fd c once e = ground (
  arith,
  with_nickname-found name m fd c (tail-Distinct j d m once),
  count-keys-some fd c m,
  once fd,
  int_key.beq_iff j fd,
)

-- Where the search finds nobody, nobody has the nickname.
pub with_nickname-nobody :
    (name : Text) (m : Map ℤ Client) (fd : ℤ) (c : Client)
    → with_nickname name m ≡ none
    → find fd m ≡ some c
    → c.nick_name ≢ name
unfolding with_nickname find
with_nickname-nobody name [] fd c e here same = ground arith
with_nickname-nobody name ((j, d) ∷ m) fd c e here same =
    ground (arith, with_nickname-nobody name m fd c, text_key.beq_iff d.nick_name name)
