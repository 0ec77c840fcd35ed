-- ===== src/Tests/Guests.antt =====
-- A server with two clients in one channel
use irc_protocol_server.Safety.Nick.{Unused-of_search}
use irc_protocol_server.Server.Alters.{alter-WellFormed, fresh-nicks}
use irc_protocol_server.Server.Counts.{put_client}
use irc_protocol_server.Base.{
  nat_key, pos, negsuc, int_key, text, text_key, ◌≡◌, refl, inl, true, false, none, some, count,
  find, place, insert, arith, contains, text_eq, update,
}
use irc_protocol_server.Client.{
  Client, new_client, set_regi_pass, set_regi_nick, set_regi_user, append_channel_list,
  set_nickname,
}
use irc_protocol_server.Channel.{Channel, new_channel, append_fd_list_client, diff_operator}
use irc_protocol_server.Server.{Server, with_nickname}
use irc_protocol_server.Server.Links.{member, roll_at}
use irc_protocol_server.Server.Entries.{arrive-WellFormed}
use irc_protocol_server.Safety.Live.{Live}
use irc_protocol_server.Safety.Join.{entered, entered-Live}
use irc_protocol_server.Rules.Heralds.{Genuine}
use irc_protocol_server.Tests.Servers.{lobby, hall, hall-Live, guest}

-- Descriptor 5 has connected and registered, and has joined "#a", of which 4 is the operator.
abbrev pub visitor : Client
visitor = set_regi_user true (set_regi_nick true (set_regi_pass true (new_client (pos 5) false)))

abbrev pub porch : Server
porch = record hall { client_list = insert (pos 5) visitor hall.client_list }

abbrev pub lobby_channel : Channel
lobby_channel = append_fd_list_client (pos 4) (new_channel lobby (pos 4))

pub porch-Live : Live (pos 5) porch
unfolding find insert place new_client set_regi_pass set_regi_nick set_regi_user update text_eq
    append_channel_list append_fd_list_client new_channel
porch-Live = record {
  well = arrive-WellFormed hall hall-Live.well (pos 5) visitor refl (inl refl) refl refl;
  client = visitor;
  here = refl;
  inside = refl;
}

pub porch-lobby : find lobby porch.channel_list ≡ some lobby_channel
unfolding find insert place update text_eq append_fd_list_client new_channel
porch-lobby = refl

abbrev pub party : Server
party = entered (pos 5) lobby porch

pub party-Live : Live (pos 5) party
unfolding member roll_at count find insert place update text_eq append_fd_list_client new_channel
party-Live = entered-Live (pos 5) lobby porch lobby_channel porch-lobby refl porch-Live

abbrev pub party_channel : Channel
party_channel = append_fd_list_client (pos 5) lobby_channel

pub party-lobby : find lobby party.channel_list ≡ some party_channel
unfolding find insert place update text_eq append_fd_list_client new_channel
party-lobby = refl

pub party-powerless : diff_operator (pos 5) party_channel ≡ false
unfolding append_fd_list_client new_channel diff_operator contains
party-powerless = refl

pub party-no_ghost : diff_operator (negsuc 0) party_channel ≡ false
unfolding append_fd_list_client new_channel diff_operator contains
party-no_ghost = refl

abbrev pub newcomer : Client
newcomer = append_channel_list lobby visitor

pub party-newcomer : find (pos 5) party.client_list ≡ some newcomer
unfolding find insert place update
party-newcomer = refl

-- Descriptor 5 is called "bob" and has not joined.
abbrev pub bob : Client
bob = set_nickname (text "bob") visitor

abbrev pub doorstep : Server
doorstep = record hall { client_list = insert (pos 5) bob hall.client_list }

pub doorstep-bob : with_nickname (text "bob") doorstep.client_list ≡ some (pos 5, bob)
unfolding with_nickname find insert place update text_eq set_nickname new_client set_regi_pass
    set_regi_nick set_regi_user append_channel_list
doorstep-bob = refl

abbrev pub host : Client
host = append_channel_list lobby guest

pub doorstep-host : find (pos 4) doorstep.client_list ≡ some host
unfolding find insert place update
doorstep-host = refl

pub doorstep-lobby : find lobby doorstep.channel_list ≡ some lobby_channel
unfolding find insert place update text_eq append_fd_list_client new_channel
doorstep-lobby = refl

pub party-Genuine : Genuine party
unfolding find insert place update append_channel_list new_client set_regi_pass set_regi_nick
    set_regi_user
party-Genuine j c here = ground (arith, int_key.beq_iff (pos 4) j, int_key.beq_iff (pos 5) j)

pub party-nobody : with_nickname (text "bob") party.client_list ≡ none
unfolding with_nickname find insert place update text_eq new_client set_regi_pass set_regi_nick
    set_regi_user append_channel_list
party-nobody = refl

-- The two clients of the party, where descriptor 5 is called "bob"
abbrev pub reunion : Server
reunion = put_client (pos 5) (set_nickname (text "bob")) party

pub reunion-host : find (pos 4) reunion.client_list ≡ some host
unfolding find insert place update
reunion-host = refl

pub reunion-Live : Live (pos 4) reunion
unfolding find insert place append_channel_list new_client set_regi_pass set_regi_nick set_regi_user
    set_nickname update
reunion-Live = record {
  well =
      alter-WellFormed party party-Live.well (pos 5) newcomer party-newcomer
        (set_nickname (text "bob")) refl refl (λ out. out)
        (fresh-nicks party party-Live.well (pos 5) newcomer party-newcomer (text "bob")
          (Unused-of_search (text "bob") party party-nobody));
  client = host;
  here = reunion-host;
  inside = refl;
}
