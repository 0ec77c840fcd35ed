-- ===== src/Events.antt =====
-- `Server::execute` of IRC_PROTOCOL_SERVER/src/Server.cpp, over what kevent gives, and the
-- arguments of IRC_PROTOCOL_SERVER/main.cpp
use irc_protocol_server.Base.{
  ℕ, ℤ, int_key, nat_key, Text, text_key, ◌==◌, Bool, ◌||◌, Option, none, some, List, [], ◌∷◌, ◌++◌,
  length, ltb, if◌then◌else◌, Map, insert,
}
use irc_protocol_server.Server.{
  when◌act◌otherwise◌, M, pure, throw_exception, gets, modify, ◌>>=◌, ◌>>◌, for_each, lookup_client,
  modify_client, send_buffer, disconnect_client, change_event,
}
use irc_protocol_server.Client.{Client, clear_recive_buf, new_client}
use irc_protocol_server.Util.{all_digits, atoi}
use irc_protocol_server.Command.Parse.{Received}
use irc_protocol_server.Command.Dispatch.{run}

-- What kevent, accept and recv report. `flag` is the indeterminate `_eofFlag` of a new client.
pub data Event : Type 0 where
  server_error : Event
  client_error : (fd : ℤ) → Event
  accept_failed : Event
  accepted : (fd : ℤ) (flag : Bool) → Event
  readable : (fd : ℤ) → Received → Event

unfoldable pub accept_client : ℤ → Bool → M (Unit {0})
unfolding change_event
accept_client fd flag = modify λ s. record s {
  change_list = change_event fd 0 s.change_list;
  client_list = insert fd (new_client fd flag) s.client_list;
}

unfoldable pub close_clients : Map ℤ Client → List ℤ
close_clients [] = []
close_clients ((fd, _) ∷ m) = fd ∷ close_clients m

unfoldable pub handle_event : Event → M (Unit {0})
handle_event server_error = do
  modify (λ s. record s { closed = s.closed ++ close_clients s.client_list })
  throw_exception
handle_event (client_error fd) = disconnect_client fd
handle_event accept_failed = throw_exception
handle_event (accepted fd flag) = accept_client fd flag
handle_event (readable fd received) = do
  found ← lookup_client fd
  elim found [ none ↦ pure tt | some _ ↦ run fd received ]

-- The send loop: every buffer that is not empty is sent and cleared.
unfoldable pub flush_client : ℤ × Client → M (Unit {0})
flush_client (fd, client) =
    when length client.recive_buf == 0
    act pure tt
    otherwise do send_buffer fd; modify_client fd clear_recive_buf

unfoldable pub flush : M (Unit {0})
flush = do clients ← gets (λ s. s.client_list); for_each clients flush_client

-- One round, after kevent has given the events
unfoldable pub serve : List Event → M (Unit {0})
serve events = do modify (λ s. record s { change_list = [] }); for_each events handle_event; flush

-- What a call of kevent gives
pub data Report : Type 0 where
  kevent_failed : Report
  kevent_gave : List Event → Report

-- The loop, over what the calls of kevent give: it returns where the next call has not returned.
unfoldable pub execute : List Report → M (Unit {0})
execute [] = pure tt
execute (kevent_failed ∷ reports) = throw_exception
execute (kevent_gave events ∷ reports) = do serve events; execute reports

pub data Arguments : Type 0 where
  not_a_number wrong_port empty_password long_password : Arguments
  accepted_arguments : ℕ → Text → Arguments

abbrev check_password : ℕ → Text → Arguments
check_password port password =
    if length password == 0
    then empty_password
    else if ltb 10 (length password)
    then long_password
    else accepted_arguments port password

abbrev check_port : Option ℕ → Text → Arguments
check_port none password = wrong_port
check_port (some port) password =
    if ltb port 1024 || ltb 65535 port then wrong_port else check_password port password

-- `filter` of IRC_PROTOCOL_SERVER/main.cpp
unfoldable pub filter_arguments : Text → Text → Arguments
unfolding all_digits atoi
filter_arguments av1 av2 = if all_digits av1 then check_port (atoi av1) av2 else not_a_number
