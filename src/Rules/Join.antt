-- ===== src/Rules/Join.antt =====
-- The guards of IRC_PROTOCOL_SERVER/command/Join.cpp for a channel that exists
use irc_protocol_server.Base.{
  ℕ, zero, suc, ◌<◌, ℤ, int_key, nat_key, Text, text_key, ◌≡◌, ◌↔◌, true, false, some, List, [],
  ◌∷◌, length, get_elem?, arith, Option-cases, Bool-cases, inl, inr,
}
use irc_protocol_server.Channel.{Channel, diff_client_in_channel, diff_mode, diff_key, diff_invite}
use irc_protocol_server.Command.Join.{admitted, admission}

-- What an admission asks: not to be a member, the key if there is one, an invitation if one is
-- wanted, and room if there is a limit.
pub record MayEnter (fd : ℤ) (size : ℕ) (keys : List Text) (at : ℕ) (channel : Channel)
    : Type 0 where
  pub not_member : diff_client_in_channel fd channel ≡ false
  pub key_given :
      diff_mode b'k' channel ≡ true
      → (2 < size) × ((key : Text) × (get_elem? keys at ≡ some key) × (diff_key key channel ≡ true))
  pub invited : diff_mode b'i' channel ≡ true → diff_invite fd channel ≡ true
  pub room : diff_mode b'l' channel ≡ true → length channel.client_fd_list < channel.limit

-- The key, where the verdict got past it
admitted-key :
    (fd : ℤ) (size : ℕ) (keys : List Text) (at : ℕ) (channel : Channel)
    → admission fd size keys at channel ≡ admitted
    → diff_mode b'k' channel ≡ true
    → (2 < size) × ((key : Text) × (get_elem? keys at ≡ some key) × (diff_key key channel ≡ true))
unfolding admission
admitted-key fd size keys at channel e locked = elim (Option-cases (get_elem? keys at)) [
  | inl absent ↦ ground arith
  | inr (key, given) ↦ (ground arith, (key, given, ground arith))
]

get_elem?-some :
    (keys : List Text) (at : ℕ) (key : Text) → get_elem? keys at ≡ some key → at < length keys
get_elem?-some [] at key e = ground arith
get_elem?-some (k ∷ keys) zero key e = omega arith
get_elem?-some (k ∷ keys) (suc at) key e = omega (arith, get_elem?-some keys at key e)

-- JOIN of a channel that exists lets a client in exactly if it may enter.
pub admission-MayEnter :
    (fd : ℤ) (size : ℕ) (keys : List Text) (at : ℕ) (channel : Channel)
    → (admission fd size keys at channel ≡ admitted) ↔ MayEnter fd size keys at channel
unfolding admission
admission-MayEnter fd size keys at channel = (
  (λ e. record {
    not_member = ground arith;
    key_given = λ locked. admitted-key fd size keys at channel e locked;
    invited = λ only. ground arith;
    room = λ limited. ground arith;
  }),
  λ may. elim (Bool-cases (diff_mode b'k' channel)) [
    | inl locked ↦
        let (many, (key, given, right)) = may.key_given locked in
        ground (arith, may.not_member, may.invited, may.room, get_elem?-some keys at key given)
    | inr free ↦ ground (arith, may.not_member, may.invited, may.room)
  ],
)
