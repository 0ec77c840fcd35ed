-- ===== src/Safety/Renaming.antt =====
-- The search of IRC_PROTOCOL_SERVER/command/Nick.cpp for a nickname that nobody has
use irc_protocol_server.Server.Nicknames.{with_nickname-name}
use irc_protocol_server.Base.{
  ℕ, zero, suc, ◌≤◌, ◌<◌, ℤ, int_key, nat_key, Text, text, text_key, ◌≡◌, refl, ap, true, none,
  some, [], ◌∷◌, ◌++◌, length, length-append, leb, Option-cases, inl, inr, arith, Map,
  if◌then◌else◌,
}
use irc_protocol_server.Client.{Client}
use irc_protocol_server.Server.{with_nickname}
use irc_protocol_server.Command.Nick.{free_nickname, nickname_duplicate}

-- How many clients have a nickname of at least `n` bytes
unfoldable at_least : ℕ → Map ℤ Client → ℕ
at_least n [] = 0
at_least n ((fd, c) ∷ m) =
    let rest = at_least n m in if leb n (length c.nick_name) then suc rest else rest

at_least-length : (n : ℕ) (m : Map ℤ Client) → at_least n m ≤ length m
unfolding at_least
at_least-length n [] = ground arith
at_least-length n ((fd, c) ∷ m) = ground (arith, at_least-length n m)

at_least-suc : (n : ℕ) (m : Map ℤ Client) → at_least (suc n) m ≤ at_least n m
unfolding at_least
at_least-suc n [] = ground arith
at_least-suc n ((fd, c) ∷ m) = ground (arith, at_least-suc n m)

at_least-taken :
    (name : Text) (m : Map ℤ Client) (p : ℤ × Client)
    → with_nickname name m ≡ some p
    → suc (at_least (suc (length name)) m) ≤ at_least (length name) m
unfolding at_least with_nickname
at_least-taken name [] p e = ground arith
at_least-taken name ((fd, c) ∷ m) p e = ground (
  arith,
  at_least-taken name m p,
  at_least-suc (length name) m,
  text_key.beq_iff c.nick_name name,
)

longer :
    (name : Text) (c : Client)
    → c.nick_name ≡ name
    → length (c.nick_name ++ text "_") ≡ suc (length name)
longer name c e = omega (arith, length-append c.nick_name (text "_"), ap length e)

-- Enough fuel: more than the clients whose nickname is as long
free_nickname_lem :
    (fuel : ℕ) (name : Text) (m : Map ℤ Client)
    → at_least (length name) m < fuel
    → (unused : Text) × (free_nickname fuel name m ≡ some unused) × (with_nickname unused m ≡ none)
unfolding free_nickname
free_nickname_lem zero name m enough = ground arith
free_nickname_lem (suc fuel) name m enough = elim (Option-cases (with_nickname name m)) [
  | inl free ↦ (name, ground arith, free)
  | inr ((fd, c), taken) ↦
      let (unused, e, free) = free_nickname_lem fuel (c.nick_name ++ text "_") m (
        omega (
          arith,
          at_least-taken name m (fd, c) taken,
          ap (λ n. at_least n m) (longer name c (with_nickname-name name m fd c taken)),
          enough,
        )) in
      (unused, ground arith, free)
]

-- The search of NICK ends with as many rounds as there are clients and one more, and nobody has the
-- nickname that it gives.
pub free_nickname-unused :
    (name : Text) (m : Map ℤ Client)
    → (unused : Text) × (free_nickname (suc (length m)) name m ≡ some unused)
      × (with_nickname unused m ≡ none)
free_nickname-unused name m =
    free_nickname_lem (suc (length m)) name m (omega (arith, at_least-length (length name) m))

pub nickname_duplicate-unused :
    (name : Text) (m : Map ℤ Client)
    → with_nickname name m ≡ none
    → nickname_duplicate name m ≡ true
unfolding nickname_duplicate with_nickname
nickname_duplicate-unused name [] e = refl
nickname_duplicate-unused name ((fd, c) ∷ m) e = ground (arith, nickname_duplicate-unused name m)
