-- ===== src/Tests/Rounds.antt =====
-- The theorems on rounds, PART, QUIT, KICK, PRIVMSG, sign-up and the set-up, applied to small servers
use irc_protocol_server.Base.{
  pos, negsuc, int_key, nat_key, text, text_key, ◌≡◌, ◌≢◌, ◌↔◌, refl, ◌||◌, true, false, none, some,
  List, [], ◌∷◌, find, place, insert, if◌then◌else◌, arith, ◌⊎◌,
}
use irc_protocol_server.Client.{new_client, get_is_regist}
use irc_protocol_server.Server.{
  Server, Change, for_each, when◌act◌otherwise◌, change_event, evfilt_read, gets, modify, ◌>>=◌,
}
use irc_protocol_server.Server.Ensures.{Ensures}
use irc_protocol_server.Server.Keeps.{Keeps}
use irc_protocol_server.Server.Links.{WellFormed, member}
use irc_protocol_server.Util.{split, all_digits, atoi}
use irc_protocol_server.Command.Kick.{kick}
use irc_protocol_server.Command.Part.{part}
use irc_protocol_server.Command.Quit.{quit}
use irc_protocol_server.Command.Dispatch.{sign_up}
use irc_protocol_server.Events.{
  accepted, readable, accept_client, handle_event, flush, flush_client, serve, Report, kevent_gave,
  execute, filter_arguments, accepted_arguments,
}
use irc_protocol_server.Startup.{
  System, Setup, up, failed, new_server, start_server, destroy, fresh_tables, main, loops, is_error,
  call_socket, call_setsockopt, call_bind, call_close, set_server_sock, set_server_addr,
  set_server_bind,
}
use irc_protocol_server.Safety.Live.{Live}
use irc_protocol_server.Safety.Kick.{kick-Live}
use irc_protocol_server.Safety.Refusal.{ComesEarly, dropped, refusal, sign_up-dropped}
use irc_protocol_server.Safety.Rounds.{
  Reachable, start, round, Reachable-WellFormed, execute-Keeps, main-loops,
}
use irc_protocol_server.Roster.{leave_all, depart, HasRoster, Refines}
use irc_protocol_server.Roster.Part.{part-Refines}
use irc_protocol_server.Roster.Disconnect.{disconnect_client-Refines}
use irc_protocol_server.Server.{disconnect_client}
use irc_protocol_server.Roster.Quit.{quit-Refines}
use irc_protocol_server.Rules.Startup.{
  Works, listening, start_server-up, closes, start_server-closes, filter_arguments-port_num,
}
use irc_protocol_server.Tests.Servers.{
  arrived, arrived-WellFormed, arrived-client, hall, hall-Live, hall-Known, lobby,
}

-- The first round: descriptor 4 connects.
abbrev watch_4 : List Change
watch_4 = record { ident = pos 4; filter = evfilt_read } ∷ []

abbrev connected : Server
connected = record (fresh_tables (text "secret") watch_4) {
  client_list = insert (pos 4) (new_client (pos 4) false) [];
}

connected-Reachable : Reachable (text "secret") [] connected
unfolding serve handle_event accept_client flush flush_client for_each when◌act◌otherwise◌ gets
    modify ◌>>=◌ insert place find new_client change_event
connected-Reachable = round (accepted (pos 4) false ∷ []) start refl

Reachable-WellFormed_example : WellFormed connected
Reachable-WellFormed_example = Reachable-WellFormed (text "secret") [] connected connected-Reachable

abbrev reports : List Report
reports = kevent_gave (readable (pos 4) (some (text "QUIT")) ∷ accepted (pos 5) true ∷ []) ∷ []

execute-Keeps_example : Keeps (execute reports) hall (λ _. WellFormed)
execute-Keeps_example = execute-Keeps reports hall hall-Live.well

-- A system where bind fails
abbrev busy_port : System
busy_port = record {
  of_socket = pos 3;
  of_setsockopt = pos 0;
  of_bind = negsuc 0;
  of_listen = pos 0;
  of_kqueue = pos 4;
  of_kevent = pos 0;
}

main-loops_example : main busy_port reports (text "6667" ∷ text "secret" ∷ []) ≢ loops
main-loops_example = main-loops busy_port reports (text "6667" ∷ text "secret" ∷ [])

abbrev working : System
working = record busy_port { of_bind = pos 0 }

start_server-up_example :
    (start_server working (new_server 6667) ≡ up (listening working 6667))
    ↔ (Works working × (listening working 6667 ≡ listening working 6667))
start_server-up_example = start_server-up working 6667 (listening working 6667) (omega arith)

abbrev unbound : Setup
unbound = record (new_server 6667) {
  server_sock = pos 3;
  sin_port = 6667;
  calls = call_socket ∷ call_setsockopt (pos 3) ∷ call_bind (pos 3) 6667 ∷ call_close (pos 3) ∷ [];
}

unbound-failed : start_server busy_port (new_server 6667) ≡ failed (text "bind error") unbound
unfolding start_server new_server set_server_sock set_server_addr set_server_bind
unbound-failed = refl

start_server-closes_example : closes (pos 3) (destroy (fresh_tables (text "secret") []) unbound) ≡ (
    if is_error busy_port.of_setsockopt
      || (is_error busy_port.of_bind
          || (is_error busy_port.of_listen || is_error busy_port.of_kqueue))
    then 2
    else 1)
start_server-closes_example =
    start_server-closes busy_port 6667 (text "secret") (text "bind error") unbound refl
      unbound-failed

port_accepted :
    filter_arguments (text "6667") (text "secret") ≡ accepted_arguments 6667 (text "secret")
unfolding filter_arguments all_digits atoi
port_accepted = refl

filter_arguments-port_num_example : (new_server 6667).port_num ≡ 6667
filter_arguments-port_num_example =
    filter_arguments-port_num (text "6667") (text "secret") (text "secret") 6667 port_accepted

kick-Live_example :
    Ensures (kick (pos 4) (text "KICK" ∷ lobby ∷ text "bob" ∷ [])) hall (λ _. Live (pos 4))
unfolding split
kick-Live_example =
    kick-Live (pos 4) (text "KICK") lobby (text "bob") [] hall (omega arith) hall-Live

sign_up-dropped_example : Ensures (sign_up (pos 4) (text "JOIN" ∷ lobby ∷ [])) arrived (λ _ t.
    WellFormed t
    × (ComesEarly (text "JOIN" ∷ lobby ∷ [])
        ⊎ (t
            ≡ dropped
                (pos 4)
                (new_client (pos 4) false)
                (refusal (new_client (pos 4) false))
                arrived)))
unfolding get_is_regist new_client
sign_up-dropped_example =
    sign_up-dropped (pos 4) (text "JOIN" ∷ lobby ∷ []) arrived (new_client (pos 4) false)
      arrived-WellFormed arrived-client refl

part-Refines_example :
    Refines (part (pos 4) (text "PART" ∷ lobby ∷ [])) hall (leave_all (pos 4) (split lobby b','))
part-Refines_example = part-Refines (pos 4) (text "PART") lobby [] hall hall-Live

quit-Refines_example :
    Ensures
      (quit (pos 4) (text "QUIT" ∷ []))
      hall
      (λ _ t. HasRoster t (depart (pos 4) (member hall)) × (find (pos 4) t.client_list ≡ none))
quit-Refines_example = quit-Refines (pos 4) (text "QUIT" ∷ []) hall hall-Live.well hall-Known

disconnect_client-Refines_example :
    Ensures
      (disconnect_client (pos 4))
      hall
      (λ _ t. HasRoster t (depart (pos 4) (member hall)) × (find (pos 4) t.client_list ≡ none))
disconnect_client-Refines_example = disconnect_client-Refines (pos 4) hall hall-Live.well hall-Known
