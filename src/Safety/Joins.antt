-- ===== src/Safety/Joins.antt =====
-- The loop of IRC_PROTOCOL_SERVER/command/Join.cpp, the channels that it founds, and the position
-- in the keys.
use irc_protocol_server.Server.Links.{member, count_of, roll_at-some, Same-Known, Same-WellFormed}
use irc_protocol_server.Server.Entries.{insert-WellFormed}
use irc_protocol_server.Server.Counts.{put_channel}
use irc_protocol_server.Base.{
  ℕ, suc, ◌+◌, ◌≤◌, ℤ, int_key, nat_key, Text, text, text_key, ◌≡◌, refl, ◌⊎◌, inl, inr, true, none,
  some, List, [], ◌∷◌, length, find, insert, find-insert, arith, ltb, Bool-cases, ap, count,
}
use irc_protocol_server.Channel.{append_fd_list_client, new_channel}
use irc_protocol_server.Error.{error_nosuchchannel_403}
use irc_protocol_server.Server.{Server, pure, ◌>>=◌, append_new_channel}
use irc_protocol_server.Server.Ensures.{
  Ensures, Ensures-bind, Ensures-when, Ensures-pure, Ensures-modify,
}
use irc_protocol_server.Server.Quiet.{
  modify_client-Ensures, modify_channel-Ensures, with_channel, Quiet, Quiet-bind, Quiet-pure,
}
use irc_protocol_server.Util.{message_all_channel, name_list_msg}
use irc_protocol_server.Util.Quiet.{message_all_channel-Quiet}
use irc_protocol_server.Util.Replies.{name_list_msg-Quiet}
use irc_protocol_server.Command.Join.{
  join_found, found_channel, is_channel_name, join_channel, join_channels, join, next_key,
  join_channel_argv, join_key_argv,
}
use irc_protocol_server.Safety.Live.{Live, Live-Known, Live-Quiet}
use irc_protocol_server.Safety.Join.{
  entered-Live, act_on-Live, admission-defined, refused-Live, admission-new, entered,
}

-- A new channel in the table, with no member yet
abbrev pub opened : ℤ → Text → Server → Server
opened fd name s = record s { channel_list = insert name (new_channel name fd) s.channel_list }

pub opened-channel :
    (fd : ℤ) (name : Text) (s : Server)
    → find name s.channel_list ≡ none
    → find name (opened fd name s).channel_list ≡ some (new_channel name fd)
opened-channel fd name s free = ground (
  arith,
  find-insert name name (new_channel name fd) s.channel_list free,
  text_key.beq_iff name name,
)

pub opened-new :
    (fd : ℤ) (name : Text) (s : Server)
    → find name s.channel_list ≡ none
    → member (opened fd name s) fd name ≡ 0
unfolding member new_channel count
opened-new fd name s free =
    ap (count_of fd)
      (roll_at-some (opened fd name s) name (new_channel name fd) (opened-channel fd name s free))

pub opened-Live :
    (fd : ℤ) (name : Text) (s : Server)
    → find name s.channel_list ≡ none
    → Live fd s
    → Live fd (opened fd name s)
opened-Live fd name s free live = record {
  well = insert-WellFormed s live.well name fd free;
  client = live.client;
  here = live.here;
  inside = live.inside;
}

pub found_channel-Ensures :
    (fd : ℤ) (name : Text) (s : Server)
    → find name s.channel_list ≡ none
    → Live fd s
    → Ensures (found_channel fd name) s (λ _ t. t ≡ entered fd name (opened fd name s))
unfolding found_channel append_new_channel
found_channel-Ensures fd name s free live =
    Ensures-bind {Q = λ _ t. t ≡ opened fd name s} _ _ s (Ensures-modify _ s refl) λ _ t e. rw e (
      Ensures-bind {Q = λ _ u. u ≡ put_channel name (append_fd_list_client fd) (opened fd name s)} _
        _ (opened fd name s)
        (modify_channel-Ensures name _ (opened fd name s) _ (opened-channel fd name s free) refl)
        λ _ u e'. rw e' (modify_client-Ensures fd _ _ (Live-Known live) refl))

pub founded-Live :
    (fd : ℤ) (name : Text) (s : Server)
    → find name s.channel_list ≡ none
    → Live fd s
    → Live fd (entered fd name (opened fd name s))
founded-Live fd name s free live =
    entered-Live fd name (opened fd name s) _ (opened-channel fd name s free)
      (opened-new fd name s free) (opened-Live fd name s free live)

pub after_founding-Quiet :
    (fd : ℤ) (name : Text) (t : Server)
    → Live fd t
    → Quiet
        (message_all_channel fd name (text "JOIN") [] >>= λ _.
          (name_list_msg fd name >>= λ _. pure true))
        t
after_founding-Quiet fd name t live =
    let known = Live-Known live in
    Quiet-bind _ _ t (message_all_channel-Quiet fd name t live.well known (text "JOIN") [])
      λ _ u same.
        Quiet-bind _ _ u
          (name_list_msg-Quiet fd name u (Same-WellFormed same live.well)
            (Same-Known fd same known))
          λ _ v _. Quiet-pure true v

pub new_channel-Live :
    (fd : ℤ) (size : ℕ) (keys : List Text) (at : ℕ) (name : Text) (s : Server)
    → find name s.channel_list ≡ none
    → Live fd s
    → Ensures (join_found fd size keys at name none) s (λ _. Live fd)
new_channel-Live fd size keys at name s free live =
    Ensures-bind _ _ s (found_channel-Ensures fd name s free live) λ _ t e. rw e (
      let live' = founded-Live fd name s free live in
      Live-Quiet live' (after_founding-Quiet fd name (entered fd name (opened fd name s)) live'))

-- A round with `keyIter` in range or at the end
join_channel-Live :
    (fd : ℤ) (size : ℕ) (keys : List Text) (at : ℕ) (name : Text) (s : Server)
    → at ≤ length keys
    → Live fd s
    → Ensures (join_channel fd size keys at name) s (λ _. Live fd)
unfolding join_channel error_nosuchchannel_403
join_channel-Live fd size keys at name s inside live =
    Ensures-when _ _ _ s
      (λ _.
        with_channel s name _ (λ free. new_channel-Live fd size keys at name s free live)
          (λ ch there.
            act_on-Live _ fd name s ch (admission-defined fd size keys at ch inside)
              (admission-new fd size keys at ch) there live))
      (λ _. refused-Live fd _ true s (λ d. refl) live)

-- Enough keys for the channels that are left, but for one; or no key at all
abbrev pub EnoughKeys : ℕ → List Text → ℕ → ℕ → Type 0
EnoughKeys size keys at left =
    (at + left ≤ suc (length keys)) ⊎ ((size ≤ 2) × (keys ≡ []) × (at ≡ 0))

next_key-EnoughKeys :
    (size : ℕ) (keys : List Text) (at left : ℕ) (name : Text)
    → EnoughKeys size keys at (suc left)
    → EnoughKeys size keys (next_key size keys at name) left
unfolding next_key
next_key-EnoughKeys size keys at left name (inl h) = inl (ground (arith, is_channel_name name))
next_key-EnoughKeys size keys at left name (inr (small, e, z)) = inr (small, e, ground arith)

join_channels-Live :
    (fd : ℤ) (size : ℕ) (keys : List Text) (at : ℕ) (names : List Text) (s : Server)
    → EnoughKeys size keys at (length names)
    → Live fd s
    → Ensures (join_channels fd size keys at names) s (λ _. Live fd)
unfolding join_channels
join_channels-Live fd size keys at [] s enough live = Ensures-pure tt s live
join_channels-Live fd size keys at (name ∷ names) s enough live =
    Ensures-bind _ _ s (join_channel-Live fd size keys at name s (in_range enough) live)
      λ go_on t live'.
        Ensures-when _ _ _ t
          (λ _.
            join_channels-Live fd size keys (next_key size keys at name) names t
              (next_key-EnoughKeys size keys at (length names) name enough) live')
          (λ _. Ensures-pure tt t live')
  where
    in_range : EnoughKeys size keys at (suc (length names)) → at ≤ length keys
    in_range (inl h) = omega (arith, h)
    in_range (inr (small, e, z)) = omega (arith, z)

enough_at_start :
    (count : ℕ) (words : List Text)
    → (words ≡ []) ⊎ (count ≤ suc (length (join_key_argv count words)))
    → EnoughKeys (2 + length words) (join_key_argv count words) 0 count
unfolding join_key_argv
enough_at_start count [] (inl e) = elim (Bool-cases (ltb 1 count)) [
  | inl many ↦ inr (omega arith, ground arith, refl)
  | inr few ↦ inl (ground arith)
]
enough_at_start count (word ∷ words) (inl e) = ground arith
enough_at_start count words (inr h) = inl (omega (arith, h))

-- JOIN of a client that is on the server and has registered returns from well-formed
-- tables, and keeps them well-formed and that client in them, as long as no key is given or each
-- channel but one has a key.
pub join-Live :
    (fd : ℤ) (verb names : Text) (words : List Text) (s : Server)
    → (words ≡ [])
      ⊎ (length (join_channel_argv names)
          ≤ suc (length (join_key_argv (length (join_channel_argv names)) words)))
    → Live fd s
    → Ensures (join fd (verb ∷ names ∷ words)) s (λ _. Live fd)
unfolding join
join-Live fd verb names words s enough live =
    join_channels-Live fd _ _ 0 (join_channel_argv names) s
      (enough_at_start (length (join_channel_argv names)) words enough) live
