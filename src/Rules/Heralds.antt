-- ===== src/Rules/Heralds.antt =====
-- Who hears of a new nickname: the loops of IRC_PROTOCOL_SERVER/command/Nick.cpp over the channels of
-- a client and over their members, with the list of those that were told
use mathlib.Core.Option
use irc_protocol_server.Base.{
  ℤ, int_key, nat_key, Text, text, text_key, ◌==◌, ◌||◌, ◌≡◌, refl, sym, ◌∙◌, ap, Bool, true, false,
  some, List, [], ◌∷◌, ◌++◌, contains, contains-push_back, push_back, find, find-update,
  if◌then◌else◌, arith, Option-cases, Bool-cases, inl, inr, text_eq, Map,
}
use irc_protocol_server.Client.{Client, append_recive_buf}
use irc_protocol_server.Channel.{Channel}
use irc_protocol_server.Server.{Server, ◌>>=◌, modify, for_each}
use irc_protocol_server.Server.Ensures.{
  Ensures, Ensures-bind, Ensures-mono, Ensures-pure, Ensures-when, Ensures-gets, Ensures-modify,
}
use irc_protocol_server.Server.Links.{
  WellFormed, Known, Same-Known, Same-WellFormed, Same-of_tables, channel_name_lem,
}
use irc_protocol_server.Server.Counts.{put_client}
use irc_protocol_server.Server.Quiet.{AllKnown, at_client, with_channel, modify_client-Ensures}
use irc_protocol_server.Util.Quiet.{members-AllKnown}
use irc_protocol_server.Util.Broadcast.{
  broadcast_line, write_line, deliver_nick, deliver, message_all_channel,
}
use irc_protocol_server.Command.Nick.{announce_nick}
use irc_protocol_server.Roster.Kick.{same_client}
use irc_protocol_server.Rules.Delivery.{buffer_at}
use irc_protocol_server.Rules.Mailed.{unbuffered, Mailed, Mailed-trans, put-Mailed}
use irc_protocol_server.Rules.Mail.{is_member}

-- The NICK line, which names no channel
abbrev pub nick_line : Client → Text → Text
nick_line c name = broadcast_line c [] (text "NICK") name

any_channel :
    (c : Client) (channel name : Text)
    → broadcast_line c channel (text "NICK") name ≡ nick_line c name
unfolding broadcast_line text_eq
any_channel c channel name = refl

-- The descriptor is in one of the channels.
abbrev pub in_some : Map Text Channel → ℤ → List Text → Bool
in_some m j [] = false
in_some m j (n ∷ names) = is_member j (find n m) || in_some m j names

-- Each client's record names its own descriptor: none was made by `operator[]`.
abbrev pub Genuine : Server → Type 0
Genuine s = (j : ℤ) (c : Client) → find j s.client_list ≡ some c → c.fd ≡ j

-- Whoever is on the list was told, once.
pub record Heralded (line : Text) (s t : Server) : Type 0 where
  pub only : Mailed s t
  pub got :
      (j : ℤ)
      → buffer_at t j ≡ (
          if contains j t.send_nick_list
          then Option.map (λ sent. sent ++ line) (buffer_at s j)
          else buffer_at s j)

abbrev noted : Text → ℤ → Server → Server
noted line target t = record (put_client target (append_recive_buf line) t) {
  send_nick_list = push_back t.send_nick_list target;
}

noted-Mailed : (line : Text) (target : ℤ) (t : Server) → Mailed t (noted line target t)
noted-Mailed line target t = Mailed-trans (put-Mailed line target t) (record {
  same = Same-of_tables refl refl;
  channels = refl;
  names = λ name. refl;
  clients = λ j. refl;
})

noted-Heralded :
    (line : Text) (target : ℤ) (s t : Server)
    → contains target t.send_nick_list ≡ false
    → Heralded line s t
    → Heralded line s (noted line target t)
unfolding buffer_at append_recive_buf
noted-Heralded line target s t new h = record {
  only = Mailed-trans h.only (noted-Mailed line target t);
  got = λ j. elim (Bool-cases (target == j)) [
    | inl same ↦ ground (
      arith,
      find-update j target (append_recive_buf line) t.client_list,
      contains-push_back j target t.send_nick_list,
      int_key.beq_iff target j,
      new,
      h.got j,
      Option-cases (find j t.client_list),
    )
    | inr other ↦ ground (
      arith,
      find-update j target (append_recive_buf line) t.client_list,
      contains-push_back j target t.send_nick_list,
      h.got j,
    )
  ];
}

seen_already :
    (j target : ℤ) (seen : List ℤ)
    → contains target seen ≡ true
    → contains j seen ≡ (contains j seen || target == j)
seen_already j target seen told = ground (arith, told, int_key.beq_iff target j)

module _ (fd : ℤ) (name : Text) (s : Server) (c : Client) (genuine : Genuine s)
    (here : find fd s.client_list ≡ some c) where
  Mailed-Genuine : (t : Server) → Mailed s t → Genuine t
  Mailed-Genuine t only j d there = elim (Option-cases (find j s.client_list)) [
    | inl absent ↦ ground (arith, only.clients j, absent, there)
    | inr (e, found) ↦ ground (arith, only.clients j, found, there, genuine j e found)
  ]

  sender_still :
      (t : Server)
      → Mailed s t
      → (d : Client) × (find fd t.client_list ≡ some d) × (nick_line d name ≡ nick_line c name)
  unfolding broadcast_line
  sender_still t only = elim (Option-cases (find fd t.client_list)) [
    | inl absent ↦ ground (arith, only.clients fd, absent, here)
    | inr (d, there) ↦ (d, there, ap (λ (k : Client). nick_line k name) (alike d there))
  ]
    where
      alike : (d : Client) → find fd t.client_list ≡ some d → unbuffered d ≡ unbuffered c
      alike d there = ground (arith, only.clients fd, here, there)

  deliver-Heralded :
      (channel : Text) (target : ℤ) (t : Server)
      → Heralded (nick_line c name) s t
      → Known t target
      → Ensures (deliver fd channel (text "NICK") name target) t (λ _ u.
        Heralded (nick_line c name) s u
        × ((j : ℤ) → contains j u.send_nick_list ≡ (contains j t.send_nick_list || target == j)))
  unfolding deliver deliver_nick write_line text_eq
  deliver-Heralded channel target t h known = at_client t target _ known λ reader there.
      rw (Mailed-Genuine t h.only target reader there) (
        Ensures-when _ _ _ t (λ own. ground arith)
          λ _.
            Ensures-when _ _ _ t
              (λ _.
                Ensures-bind {Q = λ seen u. (seen ≡ contains target t.send_nick_list) × (u ≡ t)} _ _
                  t (Ensures-gets _ t (refl, refl))
                  λ seen u (e, same).
                    rw (e, same)
                      (Ensures-when _ _ _ t
                        (λ told.
                          Ensures-pure tt t (h, λ j. seen_already j target t.send_nick_list told))
                        λ new. told_now new))
              λ other. ground arith)
    where
      told_now :
          contains target t.send_nick_list ≡ false
          → Ensures
              (write_line fd (λ client. broadcast_line client channel (text "NICK") name) target
                >>= λ _.
                    modify (λ u. record u { send_nick_list = push_back u.send_nick_list target }))
              t
              (λ _ u.
                Heralded (nick_line c name) s u
                × ((j : ℤ)
                    → contains j u.send_nick_list ≡ (contains j t.send_nick_list || target == j)))
      told_now new =
          let (d, here', line) = sender_still t h.only in
          Ensures-bind {Q = λ _ u. u ≡ put_client target (append_recive_buf (nick_line c name)) t} _
            _ t
            (at_client t fd _ (d, here')
              λ e found. modify_client-Ensures target _ t known (
                ap (λ l. put_client target (append_recive_buf l) t)
                  (any_channel e channel name
                    ∙ ap (λ (k : Client). nick_line k name) (same_client fd t e d found here')
                    ∙ line)))
            λ _ u e. rw e (
              Ensures-modify _ (put_client target (append_recive_buf (nick_line c name)) t) (
                noted-Heralded (nick_line c name) target s t new h,
                λ j. contains-push_back j target t.send_nick_list,
              ))

  -- The loop over the members of one channel
  members-Heralded :
      (channel : Text) (targets : List ℤ) (t : Server)
      → Heralded (nick_line c name) s t
      → AllKnown s targets
      → Ensures (for_each targets (deliver fd channel (text "NICK") name)) t (λ _ u.
        Heralded (nick_line c name) s u
        × ((j : ℤ)
            → contains j u.send_nick_list ≡ (contains j t.send_nick_list || contains j targets)))
  unfolding for_each contains
  members-Heralded channel [] t h all = Ensures-pure tt t (h, λ j. ground arith)
  members-Heralded channel (target ∷ targets) t h (known, all) =
      Ensures-bind (deliver fd channel (text "NICK") name target) _ t
        (deliver-Heralded channel target t h (Same-Known target h.only.same known))
        λ _ u (h', told).
          Ensures-mono (members-Heralded channel targets u h' all)
            λ _ v (h'', rest). (h'', λ j. ground (arith, told j, rest j))

  announce_nick-Heralded :
      (channel : Text) (t : Server)
      → WellFormed s
      → Heralded (nick_line c name) s t
      → Ensures (announce_nick fd name channel) t (λ _ u.
        Heralded (nick_line c name) s u
        × ((j : ℤ)
            → contains j u.send_nick_list
              ≡ (contains j t.send_nick_list || is_member j (find channel s.channel_list))))
  unfolding announce_nick message_all_channel
  announce_nick-Heralded channel t w h =
      with_channel t channel _
        (λ absent.
          Ensures-pure tt t
            (h, λ j. rw (sym (ap (find channel) h.only.channels) ∙ absent) (ground arith)))
        λ ch there.
          let there_s = sym (ap (find channel) h.only.channels) ∙ there in
          rw (channel_name_lem t channel ch (Same-WellFormed h.only.same w) there) (
            with_channel t channel _ (λ absent. ground (arith, absent, there))
              λ d found.
                let found_s = sym (ap (find channel) h.only.channels) ∙ found in
                Ensures-mono
                  (members-Heralded channel d.client_fd_list t h
                    (members-AllKnown s channel d w found_s))
                  λ _ u (h', told). (h', λ j. rw found_s (told j)))

  pub announce_all-Heralded :
      (channels : List Text) (t : Server)
      → WellFormed s
      → Heralded (nick_line c name) s t
      → Ensures (for_each channels (announce_nick fd name)) t (λ _ u.
        Heralded (nick_line c name) s u
        × ((j : ℤ)
            → contains j u.send_nick_list
              ≡ (contains j t.send_nick_list || in_some s.channel_list j channels)))
  unfolding for_each
  announce_all-Heralded [] t w h = Ensures-pure tt t (h, λ j. ground arith)
  announce_all-Heralded (channel ∷ channels) t w h =
      Ensures-bind (announce_nick fd name channel) _ t (announce_nick-Heralded channel t w h)
        λ _ u (h', told).
          Ensures-mono (announce_all-Heralded channels u w h')
            λ _ v (h'', rest). (h'', λ j. ground (arith, told j, rest j))
