-- ===== src/Authority/Run.antt =====
-- A whole message of a client that is no operator of a channel: `Command::run` of
-- IRC_PROTOCOL_SERVER/src/Command.cpp
use mathlib.Core.Option
use irc_protocol_server.Base.{
  ℤ, int_key, nat_key, negsuc, Text, text_key, ◌≡◌, refl, ap, inl, inr, false, Option, none, some,
  List, [], ◌∷◌, find,
}
use irc_protocol_server.Channel.{Channel, diff_operator}
use irc_protocol_server.Server.{Server, M}
use irc_protocol_server.Server.Keeps.{Keeps, Keeps-mono}
use irc_protocol_server.Server.Links.{WellFormed, shape, shape_at, channel_name_lem}
use irc_protocol_server.Server.Yields.{
  Yields, Yields-bind, Yields-pure, Yields-when, Yields-mono, Keeps-Yields, Ensures-Yields,
  Yields-with_client, Yields-Ensures,
}
use irc_protocol_server.Server.Obeys.{Obeys, Obeys-bind, Obeys-pure}
use irc_protocol_server.Command.Parse.{Received, get_message, cmd_words}
use irc_protocol_server.Command.Dispatch.{sign_in, dispatch, run_message, run}
use irc_protocol_server.Authority.{without, guarded, Held}
use irc_protocol_server.Authority.Idle.{pass-Obeys, user-Obeys, nick-Obeys, privmsg-Obeys}
use irc_protocol_server.Authority.Reports.{
  ping-Obeys, list-Obeys, unknown_command-Obeys, sign_up-Obeys, irssi_sign_up-Obeys,
  take_eof_buffer-Obeys, keep_partial-Obeys,
}
use irc_protocol_server.Authority.Members.{
  Kept, idle, disconnect_client-Obeys, part-Obeys, quit-Obeys,
}
use irc_protocol_server.Authority.Entering.{Stands, join-Obeys}
use irc_protocol_server.Authority.Operators.{kick-Obeys}
use irc_protocol_server.Authority.Modes.{mode-Obeys}
use irc_protocol_server.Authority.Topics.{Powerless, topic-Obeys, invite-Yields}
use irc_protocol_server.Safety.Dispatch.{
  take_eof_buffer-WellFormed, get_message-WellFormed, run-Keeps,
}

module _ (fd : ℤ) (name : Text) (ch : Channel) (out : diff_operator fd ch ≡ false) where
  -- The client was the only member, or none was.
  abbrev Last : Type 0
  Last = without fd ch.client_fd_list ≡ []

  abbrev Spared : Server → Type 0
  Spared = Kept fd name ch out Last

  Held-weaken : (o : Option Channel) → Held fd (guarded fd ch) ⊥ o → Held fd (guarded fd ch) Last o
  Held-weaken none h = absurd h
  Held-weaken (some d) h = h

  Stands-Spared : (s : Server) → Stands fd name ch out s → Spared s
  Stands-Spared s g = record {
    named = g.named;
    held = Held-weaken (find name s.channel_list) (g.held);
  }

  spared :
      {m : M (Unit {0})} (s : Server)
      → Yields m s (λ _. Stands fd name ch out)
      → Yields m s (λ _. Spared)
  spared s h = Yields-mono h λ _ t g. Stands-Spared t g

  sign_in-Yields :
      (words : List Text) (s : Server)
      → Stands fd name ch out s
      → Powerless fd name ch out s
      → Yields (sign_in fd words) s (λ _. Spared)
  unfolding sign_in
  sign_in-Yields [] s g powerless = Yields-pure tt s (Stands-Spared s g)
  sign_in-Yields (verb ∷ words) s g powerless =
      let of = idle fd name ch out Last in
      let h = Stands-Spared s g in
      Yields-when _ _ _ s (λ _. (user-Obeys of fd _).run s h)
        λ _.
          Yields-when _ _ _ s (λ _. (nick-Obeys of fd _).run s h)
            λ _.
              Yields-when _ _ _ s (λ _. (pass-Obeys of fd _).run s h)
                λ _.
                  Yields-when _ _ _ s (λ _. (privmsg-Obeys of fd _).run s h)
                    λ _.
                      Yields-when _ _ _ s (λ _. (quit-Obeys fd name ch out Last (λ e. e) _).run s h)
                        λ _.
                          Yields-when _ _ _ s
                            (λ _. (part-Obeys fd name ch out Last (λ e. e) _).run s h)
                            λ _.
                              Yields-when _ _ _ s
                                (λ _. spared s ((join-Obeys fd name ch out _).run s g))
                                λ _.
                                  Yields-when _ _ _ s
                                    (λ _. spared s ((kick-Obeys fd name ch out _).run s g))
                                    λ _.
                                      Yields-when _ _ _ s
                                        (λ _. spared s ((mode-Obeys fd name ch out _).run s g))
                                        λ _.
                                          Yields-when _ _ _ s
                                            (λ _. spared s ((topic-Obeys fd name ch out _).run s g))
                                            λ _.
                                              Yields-when _ _ _ s
                                                (λ _.
                                                  spared s
                                                    (invite-Yields fd name ch out _ s g powerless))
                                                λ _.
                                                  Yields-when _ _ _ s
                                                    (λ _. (list-Obeys of fd _).run s h)
                                                    λ _.
                                                      Yields-when _ _ _ s
                                                        (λ _. (ping-Obeys of fd _).run s h)
                                                        λ _.
                                                          Yields-when _ _ _ s
                                                            (λ _. Yields-pure tt s h)
                                                            λ _.
                                                            (unknown_command-Obeys of fd _).run s h

  dispatch-Yields :
      (words : List Text) (s : Server)
      → Stands fd name ch out s
      → Powerless fd name ch out s
      → Yields (dispatch fd words) s (λ _. Spared)
  unfolding dispatch
  dispatch-Yields words s g powerless =
      Yields-with_client s fd _ (λ gone. Yields-pure tt s (Stands-Spared s g))
        λ c here.
          Yields-when _ _ _ s (λ _. sign_in-Yields words s g powerless)
            λ _. (sign_up-Obeys (idle fd name ch out Last) fd words).run s (Stands-Spared s g)

  -- What `irssiSignUp` is followed by: no word, so no handler
  dispatch_nothing-Obeys : Obeys Spared (dispatch fd [])
  unfolding dispatch sign_in
  dispatch_nothing-Obeys = record {
    run = λ s h.
        Yields-with_client s fd _ (λ gone. Yields-pure tt s h)
          λ c here.
            Yields-when _ _ _ s (λ _. Yields-pure tt s h)
              λ _. (sign_up-Obeys (idle fd name ch out Last) fd []).run s h;
  }

  -- A client's record names its own descriptor, or -1.
  WellFormed-Powerless :
      (s : Server) → WellFormed s → diff_operator (negsuc 0) ch ≡ false → Powerless fd name ch out s
  unfolding shape_at
  WellFormed-Powerless s w no_ghost c here =
      elim (w.keyed fd (shape c) (ap (Option.map shape) here)) [
        | inl own ↦ rw own out
        | inr ghost ↦ rw ghost no_ghost
      ]

  module _ (no_ghost : diff_operator (negsuc 0) ch ≡ false) where
    run_message-Yields :
        (message : Text) (s : Server)
        → WellFormed s
        → Stands fd name ch out s
        → Yields (run_message fd message) s (λ _. Spared)
    unfolding run_message
    run_message-Yields message s w g =
        let h = Stands-Spared s g in
        let of = idle fd name ch out Last in
        Yields-when _ _ _ s (λ _. Yields-pure tt s h)
          λ _.
            Yields-when _ _ _ s (λ _. (keep_partial-Obeys of fd message).run s h)
              λ _.
                Yields-when _ _ _ s
                  (λ _.
                    (Obeys-bind (irssi_sign_up-Obeys of fd message) λ _. dispatch_nothing-Obeys).run
                      s h)
                  λ _.
                    Yields-bind _ _ s
                      (Yields-Ensures (
                        Ensures-Yields (take_eof_buffer-WellFormed fd message s w)
                          ((take_eof_buffer-Obeys (idle fd name ch out ⊥) fd message).run s g)))
                      λ whole t (w', g').
                        dispatch-Yields (cmd_words whole) t g' (WellFormed-Powerless t w' no_ghost)

    get_message-Obeys :
        (received : Received) → Obeys (Stands fd name ch out) (get_message fd received)
    unfolding get_message
    get_message-Obeys none =
        Obeys-bind (disconnect_client-Obeys fd name ch out ⊥) λ _. Obeys-pure []
    get_message-Obeys (some []) =
        Obeys-bind (disconnect_client-Obeys fd name ch out ⊥) λ _. Obeys-pure []
    get_message-Obeys (some (c ∷ rest)) = Obeys-pure _

    run-Yields :
        (received : Received) (s : Server)
        → WellFormed s
        → Stands fd name ch out s
        → Yields (run fd received) s (λ _. Spared)
    unfolding run
    run-Yields received s w g =
        Yields-bind _ _ s
          (Yields-Ensures (
            Ensures-Yields (get_message-WellFormed fd received s w)
              ((get_message-Obeys received).run s g)))
          λ message t (w', g'). run_message-Yields message t w' g'

-- Whatever recv gives for a client that is no operator of a channel, `run` ends from well-formed
-- tables, and where it returns, that channel is as it was but for the client's own membership and
-- invitation and, where it is not restricted to operators, the topic; only a channel with no other
-- member may be gone. The descriptor -1 of a client that `operator[]` made is no operator either.
pub run-guarded :
    (fd : ℤ) (received : Received) (s : Server) (name : Text) (ch : Channel)
    → WellFormed s
    → find name s.channel_list ≡ some ch
    → diff_operator fd ch ≡ false
    → diff_operator (negsuc 0) ch ≡ false
    → Keeps (run fd received) s (λ _ t.
      Held fd (guarded fd ch) (without fd ch.client_fd_list ≡ []) (find name t.channel_list))
run-guarded fd received s name ch w there out no_ghost =
    Keeps-mono
      (Keeps-Yields (run-Keeps fd received s w) (
        run-Yields fd name ch out no_ghost received s w
          (record { named = λ n c e. channel_name_lem s n c w e; held = rw there refl })))
      λ _ t (w', g). g.held
