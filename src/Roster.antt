-- ===== src/Roster.antt =====
-- Who is in which channel, as a specification: what entering a channel, leaving it, leaving a list of
-- channels and leaving all of them mean, with no table, no list of members and no loop. The children
-- prove that JOIN, PART, KICK and QUIT of IRC_PROTOCOL_SERVER/command and a lost connection do that.
pub mod Disconnect
pub mod Join
pub mod Part
pub mod Kick
pub mod Agree
pub mod Rounds
pub mod Kicking
pub mod Kicks
pub mod Quit
use irc_protocol_server.Base.{
  ℕ, ℤ, int_key, Text, text_key, ◌==◌, ◌&&◌, ◌≡◌, refl, List, contains, if◌then◌else◌,
}
use irc_protocol_server.Server.{Server, M}
use irc_protocol_server.Server.Ensures.{Ensures}
use irc_protocol_server.Server.Links.{member}

-- How often a descriptor is in a channel
abbrev pub Roster : Type 0
Roster = ℤ → Text → ℕ

abbrev pub leave : ℤ → Text → Roster → Roster
leave fd name r j n = if fd == j && name == n then 0 else r j n

-- Out of all channels of a list
abbrev pub leave_all : ℤ → List Text → Roster → Roster
leave_all fd names r j n = if fd == j && contains n names then 0 else r j n

-- Out of all channels
abbrev pub depart : ℤ → Roster → Roster
depart fd r j n = if fd == j then 0 else r j n

abbrev pub enter_channel : ℤ → Text → Roster → Roster
enter_channel fd name r j n = if fd == j && name == n then 1 else r j n

-- The state has the roster.
abbrev pub HasRoster : Server → Roster → Type 0
HasRoster s r = (j : ℤ) (n : Text) → member s j n ≡ r j n

-- The action returns, and does to the roster what `f` does.
abbrev pub Refines : {A : Type 0} → M A → Server → (Roster → Roster) → Type 0
Refines m s f = Ensures m s (λ _ t. HasRoster t (f (member s)))
