-- ===== src/Rules/Delivery.antt =====
-- What the members of a channel get from `messageAllChannel` of IRC_PROTOCOL_SERVER/src/Util.cpp
use mathlib.Core.Option
use irc_protocol_server.Base.{
  ◌≤◌, ℤ, int_key, nat_key, Text, text, text_key, ◌==◌, ◌&&◌, not, ◌≡◌, refl, sym, ◌∙◌, ap, Bool,
  false, Option, none, some, List, [], ◌∷◌, ◌++◌, contains, count, find, find-update, if◌then◌else◌,
  arith, contains-count, Option-cases, Bool-cases, inl, inr,
}
use irc_protocol_server.Client.{Client, append_recive_buf}
use irc_protocol_server.Channel.{Channel}
use irc_protocol_server.Server.{Server, for_each}
use irc_protocol_server.Server.Ensures.{
  Ensures, Ensures-bind, Ensures-mono, Ensures-pure, Ensures-when,
}
use irc_protocol_server.Server.Links.{WellFormed, Known, member, count_of, roll_at-some}
use irc_protocol_server.Server.Counts.{put_client}
use irc_protocol_server.Server.Quiet.{AllKnown, at_client, with_channel, modify_client-Ensures}
use irc_protocol_server.Util.Quiet.{members-AllKnown}
use irc_protocol_server.Util.Broadcast.{broadcast_line, write_line, deliver, message_all_channel}

-- What waits to be sent to a descriptor
unfoldable pub buffer_at : Server → ℤ → Option Text
buffer_at s j = Option.map (λ (c : Client). c.recive_buf) (find j s.client_list)

module _ (fd : ℤ) (name command message : Text) where
  -- The sender does not get its own PRIVMSG.
  abbrev pub skips : ℤ → Bool
  skips target = fd == target && command == text "PRIVMSG"

  -- The writes of the loop
  unfoldable pub tell : Text → List ℤ → Server → Server
  tell line [] s = s
  tell line (target ∷ targets) s =
      let told = put_client target (append_recive_buf line) s in
      if skips target then tell line targets s else tell line targets told

  -- The sender is there, with the line that it sends.
  abbrev Speaks : Text → Server → Type 0
  Speaks line s =
      (c : Client) × (find fd s.client_list ≡ some c)
      × (broadcast_line c name command message ≡ line)

  told-Speaks :
      (line : Text) (target : ℤ) (s : Server)
      → Speaks line s
      → Speaks line (put_client target (append_recive_buf line) s)
  unfolding broadcast_line append_recive_buf
  told-Speaks line target s (c, here, says) = elim (Bool-cases (target == fd)) [
    | inl same ↦ (
      append_recive_buf line c,
      ground (arith, find-update fd target (append_recive_buf line) s.client_list),
      says,
    )
    | inr other ↦
        (c, ground (arith, find-update fd target (append_recive_buf line) s.client_list), says)
  ]

  told-AllKnown :
      (line : Text) (target : ℤ) (s : Server) (fds : List ℤ)
      → AllKnown s fds
      → AllKnown (put_client target (append_recive_buf line) s) fds
  told-AllKnown line target s [] all = tt
  told-AllKnown line target s (j ∷ fds) ((c, here), all) = (
    (
      (if target == j then append_recive_buf line c else c),
      ground (arith, find-update j target (append_recive_buf line) s.client_list, here),
    ),
    told-AllKnown line target s fds all,
  )

  same_line :
      (c sender : Client) (line : Text) (s : Server)
      → find fd s.client_list ≡ some c
      → find fd s.client_list ≡ some sender
      → broadcast_line sender name command message ≡ line
      → broadcast_line c name command message ≡ line
  same_line c sender line s here speaks says = ap spoken (sym here ∙ speaks) ∙ says
    where
      spoken : Option Client → Text
      spoken none = []
      spoken (some d) = broadcast_line d name command message

  module _ (other : (command == text "NICK") ≡ false) where
    deliver-told :
        (line : Text) (target : ℤ) (s : Server)
        → Speaks line s
        → Known s target
        → Ensures
            (deliver fd name command message target)
            s
            (λ _ t. t ≡ (if skips target then s else put_client target (append_recive_buf line) s))
    unfolding deliver write_line
    deliver-told line target s (sender, speaks, says) known = at_client s target _ known λ reader _.
        Ensures-when _ _ _ s (λ own. Ensures-pure tt s (ground arith))
          λ not_own.
            Ensures-when _ _ _ s (λ nick. ground (arith, other, nick))
              λ _.
                at_client s fd _ (sender, speaks)
                  λ c here.
                    modify_client-Ensures target _ s known
                      (rw (not_own, same_line c sender line s here speaks says) refl)

    tell-Ensures :
        (line : Text) (targets : List ℤ) (s : Server)
        → Speaks line s
        → AllKnown s targets
        → Ensures
            (for_each targets (deliver fd name command message))
            s
            (λ _ t. t ≡ tell line targets s)
    unfolding for_each tell
    tell-Ensures line [] s speaks all = Ensures-pure tt s refl
    tell-Ensures line (target ∷ targets) s speaks all =
        Ensures-bind _ _ s (deliver-told line target s speaks all.0) λ _ t e.
          rw e (elim (Bool-cases (skips target)) [
            | inl own ↦ rw own (tell-Ensures line targets s speaks all.1)
            | inr read ↦ rw read (
                tell-Ensures line targets (put_client target (append_recive_buf line) s)
                  (told-Speaks line target s speaks) (told-AllKnown line target s targets all.1))
          ])

  -- Who is told once gets the line once.
  pub buffer_at-tell :
      (line : Text) (targets : List ℤ) (s : Server) (j : ℤ)
      → count j targets ≤ 1
      → buffer_at (tell line targets s) j ≡ (
          if contains j targets && not (skips j)
          then Option.map (λ sent. sent ++ line) (buffer_at s j)
          else buffer_at s j)
  unfolding tell buffer_at contains count append_recive_buf
  buffer_at-tell line [] s j once = refl
  buffer_at-tell line (target ∷ targets) s j once = elim (Bool-cases (target == j)) [
    | inl here ↦ ground (
      arith,
      buffer_at-tell line targets s j (ground arith),
      buffer_at-tell line targets (put_client target (append_recive_buf line) s) j (ground arith),
      find-update j target (append_recive_buf line) s.client_list,
      contains-count j targets,
      int_key.beq_iff target j,
      Option-cases (find j s.client_list),
    )
    | inr there ↦ ground (
      arith,
      buffer_at-tell line targets s j (ground arith),
      buffer_at-tell line targets (put_client target (append_recive_buf line) s) j (ground arith),
      find-update j target (append_recive_buf line) s.client_list,
    )
  ]

-- Nobody is among the members of a channel twice.
pub members_once :
    (s : Server) (name : Text) (ch : Channel) (j : ℤ)
    → WellFormed s
    → find name s.channel_list ≡ some ch
    → count j ch.client_fd_list ≤ 1
unfolding member
members_once s name ch j w there =
    omega
      (arith, sym (ap (count_of j) (roll_at-some s name ch there)), w.linked j name, w.once j name)

-- The broadcast is the writes of its loop.
pub message_all_channel-tell :
    (fd : ℤ) (name command message : Text) (s : Server) (c : Client) (ch : Channel)
    → WellFormed s
    → find fd s.client_list ≡ some c
    → find name s.channel_list ≡ some ch
    → (command == text "NICK") ≡ false
    → Ensures (message_all_channel fd name command message) s (λ _ t.
      t ≡ tell fd name command message (broadcast_line c name command message) ch.client_fd_list s)
unfolding message_all_channel
message_all_channel-tell fd name command message s c ch w here there other =
    with_channel s name _ (λ absent. ground (arith, there))
      λ d found. rw (same_members d found) (
        tell-Ensures fd name command message other (broadcast_line c name command message)
          d.client_fd_list s (c, here, refl) (members-AllKnown s name d w found))
  where
    same_members :
        (d : Channel) → find name s.channel_list ≡ some d → ch.client_fd_list ≡ d.client_fd_list
    same_members d found = ground (arith, there, found)

-- A broadcast of another command than NICK returns from well-formed tables, and writes its line once
-- to each member of the channel, the sender of a PRIVMSG apart, and nothing to anybody else.
pub message_all_channel-deliver :
    (fd : ℤ) (name command message : Text) (s : Server) (c : Client) (ch : Channel)
    → WellFormed s
    → find fd s.client_list ≡ some c
    → find name s.channel_list ≡ some ch
    → (command == text "NICK") ≡ false
    → Ensures (message_all_channel fd name command message) s (λ _ t.
      (j : ℤ)
      → buffer_at t j ≡ (
          if contains j ch.client_fd_list && not (fd == j && command == text "PRIVMSG")
          then Option.map (λ sent. sent ++ broadcast_line c name command message) (buffer_at s j)
          else buffer_at s j))
message_all_channel-deliver fd name command message s c ch w here there other =
    Ensures-mono (message_all_channel-tell fd name command message s c ch w here there other)
      λ _ t e j. rw e (
        buffer_at-tell fd name command message (broadcast_line c name command message)
          ch.client_fd_list s j (members_once s name ch j w there))
