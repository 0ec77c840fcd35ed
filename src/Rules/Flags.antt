-- ===== src/Rules/Flags.antt =====
-- What the letters 'i' and 't' of IRC_PROTOCOL_SERVER/command/Mode.cpp leave of a channel, one
-- after the other
use irc_protocol_server.Base.{
  ℕ, ℤ, int_key, nat_key, Text, text_key, ◌==◌, ◌≡◌, refl, ◌∙◌, ap, Bool, true, false, not, ◌&&◌,
  ◌||◌, Option, some, List, [], ◌∷◌, find, length, if◌then◌else◌, arith,
}
use irc_protocol_server.Client.{Client}
use irc_protocol_server.Channel.{Channel, diff_operator, diff_mode, set_mode}
use irc_protocol_server.Server.{Server}
use irc_protocol_server.Server.Ensures.{Ensures, Ensures-mono}
use irc_protocol_server.Server.Yields.{
  Yields, Yields-bind, Yields-mono, Yields-pure, Yields-when, Yields-with_channel,
  Yields-at_channel, Yields-at_client, Yields-modify_channel, Ensures-Yields,
}
use irc_protocol_server.Command.Mode.{
  ModeState, note_set, flag_mode, mode_letter, mode_letters, start, set_modes, mode,
}
use irc_protocol_server.Safety.Live.{Live}
use irc_protocol_server.Safety.Part.{update-channel}
use irc_protocol_server.Safety.Modes.{mode-Live}
use irc_protocol_server.Authority.Settings.{broadcast_mode-Obeys}

-- A flag behind a letter of its own: nothing happens where no sign came before.
abbrev signed : ℕ → Bool → Bool
signed sign old = if sign == b'+' then true else if sign == b'-' then false else old

abbrev is_sign : ℕ → Bool
is_sign x = x == b'+' || x == b'-'

-- A flag behind the letters of a text, where `sign` came before: what the nearest sign in front of
-- the last letter of its own says
unfoldable pub net_flag : ℕ → ℕ → Text → Bool → Bool
net_flag letter sign [] old = old
net_flag letter sign (x ∷ letters) old =
    net_flag letter (if is_sign x then x else sign) letters
      (if x == letter then signed sign old else old)

-- The channel with these flags, and all else as it was
abbrev pub with_flags : ℕ → Text → Channel → Channel
with_flags sign letters ch = record ch {
  invite_status = net_flag b'i' sign letters ch.invite_status;
  topic_status = net_flag b't' sign letters ch.topic_status;
}

-- Signs, and the letters of these two flags
abbrev pub only_flags : Text → Bool
only_flags [] = true
only_flags (x ∷ letters) = (is_sign x || (x == b'i' || x == b't')) && only_flags letters

step : ℕ → ℕ → Channel → Channel
step x sign ch = record ch {
  invite_status = if x == b'i' then signed sign ch.invite_status else ch.invite_status;
  topic_status = if x == b't' then signed sign ch.topic_status else ch.topic_status;
}

-- The letter is passed on only where it changes its flag.
flag_idle :
    (x sign : ℕ) (ch : Channel)
    → (x == b'i' || x == b't') ≡ true
    → (sign == b'+' && diff_mode x ch || sign == b'-' && not (diff_mode x ch)) ≡ true
    → ch ≡ step x sign ch
unfolding diff_mode step
flag_idle x sign ch flag idle = ground arith

set_mode-step :
    (x sign : ℕ) (fd : ℤ) (ch : Channel)
    → (x == b'i' || x == b't') ≡ true
    → set_mode x sign fd ch ≡ step x sign ch
unfolding set_mode step
set_mode-step x sign fd ch flag = ground arith

sign-step : (x sign : ℕ) (ch : Channel) → is_sign x ≡ true → ch ≡ step x sign ch
unfolding step
sign-step x sign ch is = ground arith

-- What a round leaves
abbrev After : Text → ℕ → Channel → Option ModeState → Server → Type 0
After name sign ch next t =
    (st : ModeState) × (next ≡ some st) × (st.sign ≡ sign) × (find name t.channel_list ≡ some ch)

module _ (fd : ℤ) (name : Text) (cmd_vector : List Text) where
  flag_mode-step :
      (x : ℕ) (st : ModeState) (s : Server) (ch : Channel)
      → find name s.channel_list ≡ some ch
      → (x == b'i' || x == b't') ≡ true
      → Yields (flag_mode fd name x ch st) s (After name st.sign (step x st.sign ch))
  unfolding flag_mode note_set
  flag_mode-step x st s ch there flag =
      Yields-when _ _ _ s
        (λ idle.
          Yields-pure _ s (st, refl, refl, there ∙ ap some (flag_idle x st.sign ch flag idle)))
        λ _.
          Yields-bind {Q = λ _ t. find name t.channel_list ≡ some (step x st.sign ch)} _ _ s
            (Yields-modify_channel name _ s λ c found.
              update-channel name (set_mode x st.sign fd) s ch there
              ∙ ap some (set_mode-step x st.sign fd ch flag))
            λ _ t there'. Yields-pure _ t (_, refl, refl, there')

  mode_letter-step :
      (x : ℕ) (st : ModeState) (s : Server) (ch : Channel)
      → find name s.channel_list ≡ some ch
      → (is_sign x || (x == b'i' || x == b't')) ≡ true
      → Yields
          (mode_letter fd name cmd_vector x st)
          s
          (After name (if is_sign x then x else st.sign) (step x st.sign ch))
  unfolding mode_letter
  mode_letter-step x st s ch there ours =
      Yields-when _ _ _ s
        (λ is. rw is (Yields-pure _ s (_, refl, refl, there ∙ ap some (sign-step x st.sign ch is))))
        λ no. Yields-at_channel s name _ λ c found.
          let same : c ≡ ch = ground (arith, found, there) in
          Yields-when _ _ _ s (λ flag. rw (no, same) (flag_mode-step x st s ch there flag))
            λ other. absurd (ground (arith, no, other, ours))

  mode_letters-flags :
      (letters : Text) (st : ModeState) (s : Server) (ch : Channel)
      → find name s.channel_list ≡ some ch
      → only_flags letters ≡ true
      → Yields
          (mode_letters fd name cmd_vector letters st)
          s
          (λ _ t. find name t.channel_list ≡ some (with_flags st.sign letters ch))
  unfolding mode_letters net_flag step
  mode_letters-flags [] st s ch there ours = Yields-pure _ s there
  mode_letters-flags (x ∷ letters) st s ch there ours =
      Yields-bind _ _ s (mode_letter-step x st s ch there (ground (arith, ours)))
        λ next t (st', is, sign, there'). rw is (
          Yields-mono (mode_letters-flags letters st' t _ there' (ground (arith, ours)))
            λ _ u e. e ∙ ap (λ g. some (with_flags g letters (step x st.sign ch))) sign)

  set_modes-flags :
      (letters : Text) (s : Server) (ch : Channel)
      → find name s.channel_list ≡ some ch
      → only_flags letters ≡ true
      → Yields
          (set_modes fd name cmd_vector letters)
          s
          (λ _ t. find name t.channel_list ≡ some (with_flags 0 letters ch))
  unfolding set_modes
  set_modes-flags letters s ch there ours =
      Yields-bind _ _ s (mode_letters-flags letters start s ch there ours) λ next t there'.
        (broadcast_mode-Obeys (λ u v e p. ap (find name) e ∙ p) fd name next).run t there'

-- MODE of a registered operator with a word of signs and the letters 'i' and 't', not of one byte,
-- for a channel that is not called like the operator: it returns from well-formed tables. Each of
-- the two flags is then what the nearest sign in front of the last letter of its own says, or what
-- it was where there is no such letter or sign; nothing else of the channel changes.
pub mode-with_flags :
    (fd : ℤ) (verb name letters : Text) (words : List Text) (s : Server) (c : Client) (ch : Channel)
    → Live fd s
    → find fd s.client_list ≡ some c
    → (c.nick_name == name) ≡ false
    → find name s.channel_list ≡ some ch
    → diff_operator fd ch ≡ true
    → (length letters == 1) ≡ false
    → only_flags letters ≡ true
    → Ensures
        (mode fd (verb ∷ name ∷ letters ∷ words))
        s
        (λ _ t. find name t.channel_list ≡ some (with_flags 0 letters ch))
unfolding mode
mode-with_flags fd verb name letters words s c ch live here away there may long ours =
    Ensures-mono
      (Ensures-Yields (mode-Live fd (verb ∷ name ∷ letters ∷ words) s live) (
        Yields-at_client s fd _ λ d here'.
          Yields-with_channel s name _ (λ absent. absurd (ground (arith, absent, there)))
            λ k there'.
              let same : k ≡ ch = ground (arith, there, there') in
              Yields-when _ _ _ s (λ own. absurd (ground (arith, own, away, here, here')))
                λ _.
                  Yields-when _ _ _ s (λ one. absurd (ground (arith, one, long)))
                    λ _.
                      Yields-when _ _ _ s (λ _. set_modes-flags fd name _ letters s ch there ours)
                        λ no. absurd (ground (arith, no, may, same))))
      λ _ t both. both.1
