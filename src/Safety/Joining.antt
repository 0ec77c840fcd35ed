-- ===== src/Safety/Joining.antt =====
-- IRC_PROTOCOL_SERVER/command/Join.cpp with any words
use irc_protocol_server.Base.{
  ℕ, ℤ, int_key, nat_key, Text, text_key, ◌≡◌, ◌≢◌, ◌⊎◌, refl, true, false, some, List, [], ◌∷◌,
  find, arith, inl, inr,
}
use irc_protocol_server.Channel.{Channel, diff_client_in_channel}
use irc_protocol_server.Error.{error_needmoreparams_461, error_nosuchchannel_403}
use irc_protocol_server.Server.{Server}
use irc_protocol_server.Server.Ensures.{Ensures-pure}
use irc_protocol_server.Server.Keeps.{
  Keeps, Keeps-Ensures, Keeps-bind, Keeps-when, Keeps-undefined, Keeps-with_channel,
}
use irc_protocol_server.Command.Join.{
  Admission, admitted, already_on_channel, no_keys, bad_key, bad_iterator, invite_only, full,
  act_on, join_channel, join_channels, join, next_key, join_channel_argv,
}
use irc_protocol_server.Safety.Live.{Live, Live-answer}
use irc_protocol_server.Safety.Join.{act_on-Live, admission-new, refused-Live}
use irc_protocol_server.Safety.Joins.{new_channel-Live}

bad_or_not : (verdict : Admission) → (verdict ≡ bad_iterator) ⊎ (verdict ≢ bad_iterator)
bad_or_not admitted = inr (λ e. ground arith)
bad_or_not already_on_channel = inr (λ e. ground arith)
bad_or_not no_keys = inr (λ e. ground arith)
bad_or_not bad_key = inr (λ e. ground arith)
bad_or_not bad_iterator = inl refl
bad_or_not invite_only = inr (λ e. ground arith)
bad_or_not full = inr (λ e. ground arith)

act_on-Keeps :
    (verdict : Admission) (fd : ℤ) (name : Text) (s : Server) (ch : Channel)
    → (verdict ≡ admitted → diff_client_in_channel fd ch ≡ false)
    → find name s.channel_list ≡ some ch
    → Live fd s
    → Keeps (act_on verdict fd name ch) s (λ _. Live fd)
unfolding act_on
act_on-Keeps verdict fd name s ch new there live = elim (bad_or_not verdict) [
  | inl bad ↦ rw bad (Keeps-undefined s)
  | inr fine ↦ Keeps-Ensures (act_on-Live verdict fd name s ch fine new there live)
]

-- A round of JOIN, with `keyIter` anywhere
join_channel-Keeps :
    (fd : ℤ) (size : ℕ) (keys : List Text) (at : ℕ) (name : Text) (s : Server)
    → Live fd s
    → Keeps (join_channel fd size keys at name) s (λ _. Live fd)
unfolding join_channel error_nosuchchannel_403
join_channel-Keeps fd size keys at name s live =
    Keeps-when _ _ _ s
      (λ _.
        Keeps-with_channel s name _
          (λ free. Keeps-Ensures (new_channel-Live fd size keys at name s free live))
          λ ch there. act_on-Keeps _ fd name s ch (admission-new fd size keys at ch) there live)
      λ _. Keeps-Ensures (refused-Live fd _ true s (λ d. refl) live)

join_channels-Keeps :
    (fd : ℤ) (size : ℕ) (keys : List Text) (at : ℕ) (names : List Text) (s : Server)
    → Live fd s
    → Keeps (join_channels fd size keys at names) s (λ _. Live fd)
unfolding join_channels
join_channels-Keeps fd size keys at [] s live = Keeps-Ensures (Ensures-pure tt s live)
join_channels-Keeps fd size keys at (name ∷ names) s live =
    Keeps-bind _ _ s (join_channel-Keeps fd size keys at name s live) λ go_on t live'.
      Keeps-when _ _ _ t
        (λ _. join_channels-Keeps fd size keys (next_key size keys at name) names t live')
        λ _. Keeps-Ensures (Ensures-pure tt t live')

-- JOIN with any words: it ends, and where it returns, the tables are well-formed.
pub join-Keeps :
    (fd : ℤ) (cmd_vector : List Text) (s : Server)
    → Live fd s
    → Keeps (join fd cmd_vector) s (λ _. Live fd)
unfolding join error_needmoreparams_461
join-Keeps fd (verb ∷ names ∷ words) s live =
    join_channels-Keeps fd _ _ 0 (join_channel_argv names) s live
join-Keeps fd (verb ∷ []) s live = Keeps-Ensures (Live-answer fd _ s live (λ d. refl))
join-Keeps fd [] s live = Keeps-Ensures (Live-answer fd _ s live (λ d. refl))
