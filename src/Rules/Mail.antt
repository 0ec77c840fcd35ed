-- ===== src/Rules/Mail.antt =====
-- What PRIVMSG of IRC_PROTOCOL_SERVER/command/Privmsg.cpp brings to whom, as a specification: a
-- text for each descriptor, with no table that changes and no loop over members
use irc_protocol_server.Base.{
  ℤ, int_key, nat_key, Text, text, text_key, ◌==◌, ◌&&◌, not, ◌≡◌, Bool, true, false, Option, none,
  some, List, [], ◌∷◌, ◌++◌, contains, find, if◌then◌else◌,
}
use irc_protocol_server.Client.{Client, find_channel}
use irc_protocol_server.Channel.{Channel}
use irc_protocol_server.Server.{Server, with_nickname}
use irc_protocol_server.Util.Broadcast.{broadcast_line}
use irc_protocol_server.Command.Privmsg.{private_line}
use irc_protocol_server.Safety.Privmsg.{is_channel}
use irc_protocol_server.Rules.Mailed.{holder}

abbrev pub is_member : ℤ → Option Channel → Bool
is_member j none = false
is_member j (some ch) = contains j ch.client_fd_list

abbrev pub is_holder : ℤ → Option ℤ → Bool
is_holder j none = false
is_holder j (some i) = i == j

-- What one target of a message of the client `c` at `fd` brings to the descriptor `j`: the members of
-- a channel get the line, the sender apart, and so does who has the nickname.
unfoldable pub mail : Server → ℤ → Client → Text → Text → ℤ → Text → Text
mail s fd c verb message j target =
    if is_channel target
    then (if is_member j (find target s.channel_list) && not (fd == j)
        then broadcast_line c target (text "PRIVMSG") message
        else [])
    else (if is_holder j (holder (with_nickname target s.client_list))
        then private_line c verb message
        else [])

-- All targets, in their order
unfoldable pub mails : Server → ℤ → Client → Text → Text → ℤ → List Text → Text
unfolding mail
mails s fd c verb message j [] = []
mails s fd c verb message j (target ∷ targets) =
    mail s fd c verb message j target ++ mails s fd c verb message j targets

-- The sender is in the channel, or somebody has the nickname.
abbrev pub Reached : Server → Client → Text → Type 0
Reached s c target =
    (is_channel target ≡ true → find_channel target c ≡ true)
    × (is_channel target ≡ false → (p : ℤ × Client) × (with_nickname target s.client_list ≡ some p))

abbrev pub AllReached : Server → Client → List Text → Type 0
AllReached s c [] = Unit {0}
AllReached s c (target ∷ targets) = Reached s c target × AllReached s c targets
