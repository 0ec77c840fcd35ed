-- ===== src/Roster/Kicks.antt =====
-- The loops of IRC_PROTOCOL_SERVER/command/Kick.cpp and the specification of kicking
use irc_protocol_server.Base.{
  ◌≤◌, ℤ, int_key, nat_key, Text, text_key, ◌==◌, not, ◌≡◌, refl, sym, ◌∙◌, ap, true, false, some,
  List, [], ◌∷◌, find, length, if◌then◌else◌, arith,
}
use irc_protocol_server.Client.{Client, append_recive_buf}
use irc_protocol_server.Error.{error_chanoprivsneeded_482}
use irc_protocol_server.Server.{Server, with_nickname}
use irc_protocol_server.Server.Ensures.{
  Ensures, Ensures-bind, Ensures-both, Ensures-mono, Ensures-when, Ensures-pure,
}
use irc_protocol_server.Server.Links.{member}
use irc_protocol_server.Server.Quiet.{with_channel}
use irc_protocol_server.Util.{split}
use irc_protocol_server.Command.Kick.{lacks_privilege, kick_channel, kick_channels, kick}
use irc_protocol_server.Safety.Live.{Live, Live-Known}
use irc_protocol_server.Safety.Kick.{kick_channel-Live}
use irc_protocol_server.Roster.{HasRoster, Refines}
use irc_protocol_server.Roster.Join.{refused-HasRoster}
use irc_protocol_server.Roster.Kick.{kick_channel-Refines}
use irc_protocol_server.Roster.Agree.{key_and_fd, is_there, Agree}
use irc_protocol_server.Roster.Rounds.{refused-Agree}
use irc_protocol_server.Roster.Kicking.{
  goes_on, out_of, operates, kicks, kicks-Agree, kick_channel-Agree, kicked-out_of,
}

-- A round, with what it leaves for the next one
round :
    (fd : ℤ) (name nick : Text) (nicks words : List Text) (s : Server) (c : Client)
    → find fd s.client_list ≡ some c
    → Live fd s
    → Ensures (kick_channel fd name (nick ∷ nicks) words) s (λ b t.
      (Live fd t
        × ((b
              ≡ goes_on
                  (is_there (find name s.channel_list))
                  (key_and_fd (with_nickname nick s.client_list))
                  (nick == c.nick_name))
            × Agree fd s t))
      × (member t
          ≡ out_of
              (is_there (find name s.channel_list))
              (key_and_fd (with_nickname nick s.client_list))
              (nick == c.nick_name)
              name
              (member s)))
round fd name nick nicks words s c me live =
    Ensures-both
      (Ensures-both (kick_channel-Live fd name nick nicks words s live)
        (kick_channel-Agree fd s c live me name nick nicks words))
      (Ensures-mono (kick_channel-Refines fd name nick nicks words s c me live)
        λ _ t h. λ i. λ j n. (h j n ∙ kicked-out_of fd s c live me name nick j n) i)

kick_channels-Refines :
    (fd : ℤ) (names nicks words : List Text) (s : Server) (c : Client)
    → length names ≤ length nicks
    → find fd s.client_list ≡ some c
    → Live fd s
    → Refines
        (kick_channels fd names nicks words)
        s
        (kicks s.client_list s.channel_list c.nick_name names nicks)
unfolding kick_channels kicks
kick_channels-Refines fd [] nicks words s c enough me live = Ensures-pure tt s (λ j n. refl)
kick_channels-Refines fd (name ∷ names) [] words s c enough me live = absurd (omega (arith, enough))
kick_channels-Refines fd (name ∷ names) (nick ∷ nicks) words s c enough me live =
    Ensures-bind _ _ s (round fd name nick nicks words s c me live)
      λ go t ((live', (went, agree)), now).
        let (d, me') = Live-Known live' in
        let kept : d.nick_name ≡ c.nick_name = ground (arith, agree.own, me, me') in
        Ensures-when _ _ _ t
          (λ on.
            Ensures-mono
              (kick_channels-Refines fd names nicks words t d (omega (arith, enough)) me' live')
              λ _ u h j n. rw (sym went ∙ on) (
                h j n
                ∙ ap (λ r. r j n)
                    (ap (λ own. kicks t.client_list t.channel_list own names nicks (member t)) kept
                      ∙ (kicks-Agree fd s t c.nick_name names nicks (member t) agree
                          ∙ ap (kicks s.client_list s.channel_list c.nick_name names nicks) now))))
          λ off. rw (sym went ∙ off) (Ensures-pure tt t (λ j n. ap (λ r. r j n) now))

lacks_privilege-operates :
    (fd : ℤ) (names : List Text) (s : Server) (c : Client)
    → find fd s.client_list ≡ some c
    → Live fd s
    → Ensures (lacks_privilege fd names) s (λ b t.
      ((b ≡ not (operates fd s.channel_list names)) × HasRoster t (member s)) × (b ≡ false → t ≡ s))
unfolding lacks_privilege operates error_chanoprivsneeded_482 append_recive_buf
lacks_privilege-operates fd [] s c me live = Ensures-pure false s ((refl, λ j n. refl), λ _. refl)
lacks_privilege-operates fd (name ∷ names) s c me live =
    let rest = lacks_privilege-operates fd names s c me live in
    with_channel s name _ (λ free. rw free rest)
      λ ch there.
        Ensures-when _ _ _ s (λ is. rw (there, is) rest)
          λ no.
            rw (there, no)
              (Ensures-mono
                (Ensures-both (refused-Agree fd name s c live me _ true (λ d. (refl, refl)))
                  (refused-HasRoster fd _ true s (λ d. refl) live))
                λ b t ((e, _), h). ((e, h), λ f. absurd (ground (arith, e, f))))

-- KICK with as many nicknames as channels, of a client that is on the server and has registered, from
-- well-formed tables: if the sender is an operator of each named channel that is there, it takes the
-- clients with the nicknames out of the channels, pair by pair, up to the first pair with a channel
-- that is there and a nickname that nobody has, or a client with descriptor -1, or the sender itself;
-- otherwise it takes nobody out of any channel.
pub kick-Refines :
    (fd : ℤ) (verb names nicks : Text) (words : List Text) (s : Server) (c : Client)
    → find fd s.client_list ≡ some c
    → length (split names b',') ≤ length (split nicks b',')
    → Live fd s
    → Refines (kick fd (verb ∷ names ∷ nicks ∷ words)) s (λ r.
      if operates fd s.channel_list (split names b',')
      then kicks s.client_list s.channel_list c.nick_name (split names b',') (split nicks b',') r
      else r)
unfolding kick
kick-Refines fd verb names nicks words s c me enough live =
    Ensures-bind _ _ s (lacks_privilege-operates fd (split names b',') s c me live)
      λ refused t ((e, same), untouched).
        let all = operates fd s.channel_list (split names b',') in
        Ensures-when _ _ _ t
          (λ yes.
            let some_not : all ≡ false = ground (arith, e, yes) in
            rw some_not (Ensures-pure tt t same))
          λ no.
            let each : all ≡ true = ground (arith, e, no) in
            rw (each, untouched no) (kick_channels-Refines fd _ _ words s c enough me live)
