-- ===== src/Roster/Kicking.antt =====
-- Kicking by pairs of a channel and a nickname, as a specification, and the rounds of
-- IRC_PROTOCOL_SERVER/command/Kick.cpp in its terms
use irc_protocol_server.Base.{
  ℤ, int_key, negsuc, nat_key, Text, text_key, ◌==◌, ◌&&◌, not, ◌≡◌, refl, sym, Bool, true, false,
  Option, none, some, List, [], ◌∷◌, find, Map, if◌then◌else◌, arith, Option-cases, Bool-cases, inl,
  inr,
}
use irc_protocol_server.Client.{Client}
use irc_protocol_server.Channel.{Channel, diff_operator, diff_client_in_channel}
use irc_protocol_server.Error.{error_nosuchnick_401, error_nosuchchannel_403}
use irc_protocol_server.Server.{Server, with_nickname}
use irc_protocol_server.Server.Ensures.{Ensures}
use irc_protocol_server.Server.Links.{member}
use irc_protocol_server.Server.Nicknames.{with_nickname-found, with_nickname-name}
use irc_protocol_server.Server.Quiet.{with_channel, with_named}
use irc_protocol_server.Command.Kick.{kick_channel}
use irc_protocol_server.Safety.Live.{Live}
use irc_protocol_server.Safety.Join.{not_member-zero}
use irc_protocol_server.Safety.Kick.{target_key}
use irc_protocol_server.Roster.{Roster, leave}
use irc_protocol_server.Roster.Kick.{kicked}
use irc_protocol_server.Roster.Agree.{key_and_fd, is_there, Agree}
use irc_protocol_server.Roster.Rounds.{refused-Agree, kick_found-Agree}

-- Whether a round is followed by another: not where the channel is there, and nobody has the nickname
-- or it is the sender's own.
abbrev pub goes_on : Bool → Option (ℤ × ℤ) → Bool → Bool
goes_on false who own = true
goes_on true none own = false
goes_on true (some (j, i)) own = not (i == negsuc 0) && not own

-- Whom a round takes out: nobody where the channel is missing, or a client with descriptor -1 is
-- found, or the nickname is the sender's own
abbrev pub out_of : Bool → Option (ℤ × ℤ) → Bool → Text → Roster → Roster
out_of false who own name r = r
out_of true none own name r = r
out_of true (some (j, i)) own name r = if not (i == negsuc 0) && not own then leave j name r else r

abbrev pub operator_if_there : ℤ → Option Channel → Bool
operator_if_there fd none = true
operator_if_there fd (some ch) = diff_operator fd ch

-- Whether the sender is an operator of each of these channels that is there
unfoldable pub operates : ℤ → Map Text Channel → List Text → Bool
operates fd chs [] = true
operates fd chs (name ∷ names) = operator_if_there fd (find name chs) && operates fd chs names

-- What the loops of KICK do to the roster: one channel and one nickname after the other
unfoldable pub kicks :
    Map ℤ Client → Map Text Channel → Text → List Text → List Text → Roster → Roster
kicks m chs own [] nicks r = r
kicks m chs own (name ∷ names) [] r = r
kicks m chs own (name ∷ names) (nick ∷ nicks) r =
    let who = key_and_fd (with_nickname nick m) in
    let there = is_there (find name chs) in
    let after = out_of there who (nick == own) name r in
    let rest = kicks m chs own names nicks after in
    if goes_on there who (nick == own) then rest else after

pub kicks-Agree :
    (fd : ℤ) (s t : Server) (own : Text) (names nicks : List Text) (r : Roster)
    → Agree fd s t
    → kicks t.client_list t.channel_list own names nicks r
      ≡ kicks s.client_list s.channel_list own names nicks r
unfolding kicks
kicks-Agree fd s t own [] nicks r agree = refl
kicks-Agree fd s t own (name ∷ names) [] r agree = refl
kicks-Agree fd s t own (name ∷ names) (nick ∷ nicks) r agree =
    rw (agree.clients nick, agree.channels name, kicks-Agree fd s t own names nicks _ agree) refl

module _ (fd : ℤ) (s : Server) (c : Client) (live : Live fd s)
    (me : find fd s.client_list ≡ some c) where
  pub kick_channel-Agree :
      (name nick : Text) (nicks words : List Text)
      → Ensures (kick_channel fd name (nick ∷ nicks) words) s (λ b u.
        (b
          ≡ goes_on
              (is_there (find name s.channel_list))
              (key_and_fd (with_nickname nick s.client_list))
              (nick == c.nick_name))
        × Agree fd s u)
  unfolding kick_channel error_nosuchnick_401 error_nosuchchannel_403
  kick_channel-Agree name nick nicks words =
      with_channel s name _
        (λ free. rw free (refused-Agree fd name s c live me _ true (λ d. (refl, refl))))
        λ ch there.
          with_named s nick _
            (λ nobody.
              rw (there, nobody) (refused-Agree fd name s c live me _ false (λ d. (refl, refl))))
            λ (target, client) found.
              rw (there, found, sym (with_nickname-name nick s.client_list target client found))
                (kick_found-Agree fd name s c live me client.nick_name words ch target client there
                  (with_nickname-found nick s.client_list target client live.well.distinct found))

  stays :
      (name : Text) (ch : Channel) (target : ℤ) (client : Client) (j : ℤ) (n : Text)
      → find name s.channel_list ≡ some ch
      → client.fd ≡ target
      → diff_client_in_channel client.fd ch ≡ false
      → member s j n ≡ leave target name (member s) j n
  stays name ch target client j n there key out = ground (
    arith,
    key,
    not_member-zero client.fd name s ch there out,
    int_key.beq_iff target j,
    text_key.beq_iff name n,
  )

  pub kicked-out_of :
      (name nick : Text) (j : ℤ) (n : Text)
      → kicked c name (find name s.channel_list) (with_nickname nick s.client_list) (member s) j n
        ≡ out_of
            (is_there (find name s.channel_list))
            (key_and_fd (with_nickname nick s.client_list))
            (nick == c.nick_name)
            name
            (member s)
            j
            n
  kicked-out_of name nick j n = elim (Option-cases (find name s.channel_list)) [
    | inl free ↦ rw free refl
    | inr (ch, there) ↦ elim (Option-cases (with_nickname nick s.client_list)) [
      | inl nobody ↦ rw (there, nobody) refl
      | inr ((target, client), found) ↦
          rw (there, found, sym (with_nickname-name nick s.client_list target client found))
            (elim (Bool-cases (client.fd == negsuc 0)) [
              | inl ghost ↦ rw ghost refl
              | inr real ↦ elim (Bool-cases (client.nick_name == c.nick_name)) [
                | inl self ↦ rw (real, self) refl
                | inr away ↦ elim (Bool-cases (diff_client_in_channel client.fd ch)) [
                  | inl inside ↦ rw (real, away, inside) refl
                  | inr outside ↦
                      rw (real, away, outside)
                        (stays name ch target client j n there
                          (target_key s target client live.well
                            (with_nickname-found nick s.client_list target client live.well.distinct
                              found)
                            real)
                          outside)
                ]
              ]
            ])
    ]
  ]
