-- ===== src/Tests/Servers.antt =====
-- Small servers
use irc_protocol_server.Base.{
  nat_key, pos, int_key, Text, text, text_key, ◌≡◌, refl, inl, true, false, some, [], count, find,
  place, insert, arith,
}
use irc_protocol_server.Client.{Client, new_client, set_regi_pass, set_regi_nick, set_regi_user}
use irc_protocol_server.Channel.{new_channel}
use irc_protocol_server.Server.{Server}
use irc_protocol_server.Server.Links.{WellFormed, Known, member, joined, shape_at, roll_at}
use irc_protocol_server.Server.Entries.{arrive-WellFormed}
use irc_protocol_server.Safety.Live.{Live}
use irc_protocol_server.Safety.Join.{entered, entered-Live}
use irc_protocol_server.Safety.Joins.{opened, opened-new, opened-Live, opened-channel}
use irc_protocol_server.Safety.Connections.{accepted-WellFormed}

abbrev pub empty_server : Server
empty_server = record {
  client_list = [];
  channel_list = [];
  password = text "secret";
  send_nick_list = [];
  change_list = [];
  sent = [];
  closed = [];
}

pub empty_server-WellFormed : WellFormed empty_server
unfolding member joined shape_at roll_at find count
empty_server-WellFormed = record {
  linked = λ fd name. refl;
  named = λ name c e. ground arith;
  keyed = λ fd c e. ground arith;
  outside = λ fd c e out. ground arith;
  once = λ fd name. omega arith;
  nicks = λ i j a b p q same star. ground arith;
  distinct = λ fd. omega arith;
}

-- Descriptor 4 has connected.
abbrev pub arrived : Server
arrived = record empty_server { client_list = insert (pos 4) (new_client (pos 4) false) [] }

pub arrived-WellFormed : WellFormed arrived
arrived-WellFormed = accepted-WellFormed (pos 4) false empty_server empty_server-WellFormed

pub arrived-client : find (pos 4) arrived.client_list ≡ some (new_client (pos 4) false)
unfolding find insert place
arrived-client = refl

pub arrived-Known : Known arrived (pos 4)
arrived-Known = (new_client (pos 4) false, arrived-client)

-- It has registered.
abbrev pub guest : Client
guest = set_regi_user true (set_regi_nick true (set_regi_pass true (new_client (pos 4) false)))

abbrev pub let_in : Server
let_in = record empty_server { client_list = insert (pos 4) guest [] }

pub let_in-Live : Live (pos 4) let_in
unfolding find insert place new_client set_regi_pass set_regi_nick set_regi_user
let_in-Live = record {
  well =
      arrive-WellFormed empty_server empty_server-WellFormed (pos 4) guest refl (inl refl) refl
        refl;
  client = guest;
  here = refl;
  inside = refl;
}

-- It has founded the channel "#a".
abbrev pub lobby : Text
lobby = text "#a"

abbrev pub hall : Server
hall = entered (pos 4) lobby (opened (pos 4) lobby let_in)

pub hall-Live : Live (pos 4) hall
unfolding find
hall-Live =
    entered-Live (pos 4) lobby (opened (pos 4) lobby let_in) (new_channel lobby (pos 4))
      (opened-channel (pos 4) lobby let_in refl) (opened-new (pos 4) lobby let_in refl)
      (opened-Live (pos 4) lobby let_in refl let_in-Live)

abbrev pub two_channels : Text
two_channels = text "#a,#b"

pub hall-Known : Known hall (pos 4)
hall-Known = (hall-Live.client, hall-Live.here)
