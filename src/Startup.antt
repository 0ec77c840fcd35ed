-- ===== src/Startup.antt =====
-- The set-up and the end of the server: `Server::Server`, `Server::run` and what it calls before
-- `execute`, and `Server::~Server` of IRC_PROTOCOL_SERVER/src/Server.cpp, and `main` of
-- IRC_PROTOCOL_SERVER/main.cpp. What the system calls return is an argument.
use irc_protocol_server.Base.{
  ℕ, ◌%◌, ℤ, int_key, nat_key, negsuc, Text, text, text_key, ◌==◌, Bool, List, [], ◌∷◌, ◌++◌,
  if◌then◌else◌, push_back, map,
}
use irc_protocol_server.Server.{
  Server, Outcome, ok, undefined, threw, diverged, Change, change_event,
}
use irc_protocol_server.Events.{
  Arguments, filter_arguments, accepted_arguments, not_a_number, wrong_port, empty_password,
  long_password, Report, execute, close_clients,
}

-- The calls on the listening socket and on the queue, with what they are given
pub data Call : Type 0 where
  call_socket : Call
  call_setsockopt : (fd : ℤ) → Call
  call_bind : (fd : ℤ) (port : ℕ) → Call
  call_listen : (fd : ℤ) (backlog : ℕ) → Call
  call_kqueue : Call
  call_kevent : (kq : ℤ) (changes : List Change) → Call
  call_close : (fd : ℤ) → Call

-- What they return
pub record System : Type 0 where
  pub of_socket : ℤ
  pub of_setsockopt : ℤ
  pub of_bind : ℤ
  pub of_listen : ℤ
  pub of_kqueue : ℤ
  pub of_kevent : ℤ

-- The fields of `Server` that the set-up writes, and the calls so far. `sin_port` is in the order of
-- the host.
pub record Setup : Type 0 where
  pub port_num : ℕ
  pub server_sock : ℤ
  pub sin_port : ℕ
  pub kq : ℤ
  pub change_list : List Change
  pub calls : List Call

-- A step of the set-up goes on, or throws an exception.
pub data Step : Type 0 where
  up : Setup → Step
  failed : (what : Text) → Setup → Step

abbrev and_then : Step → (Setup → Step) → Step
and_then (up s) f = f s
and_then (failed what s) f = failed what s

abbrev pub called : Call → Setup → Setup
called c s = record s { calls = push_back s.calls c }

abbrev pub is_error : ℤ → Bool
is_error result = result == negsuc 0

-- The constructor: the port is an `unsigned short`. What it leaves indeterminate is -1 and 0 here,
-- and is written before it is read.
unfoldable pub new_server : ℕ → Setup
new_server port = record {
  port_num = port % 65536;
  server_sock = negsuc 0;
  sin_port = 0;
  kq = negsuc 0;
  change_list = [];
  calls = [];
}

unfoldable pub set_server_sock : System → Setup → Step
set_server_sock sys s =
    let made = called call_socket (record s { server_sock = sys.of_socket }) in
    let asked = called (call_setsockopt sys.of_socket) made in
    if is_error sys.of_socket
    then failed (text "socket error") made
    else if is_error sys.of_setsockopt
    then failed (text "setsockopt error") (called (call_close sys.of_socket) asked)
    else up asked

unfoldable pub set_server_addr : Setup → Step
set_server_addr s = up (record s { sin_port = s.port_num })

unfoldable pub set_server_bind : System → Setup → Step
set_server_bind sys s =
    let bound = called (call_bind s.server_sock s.sin_port) s in
    if is_error sys.of_bind
    then failed (text "bind error") (called (call_close s.server_sock) bound)
    else up bound

-- `MAX_CONNECTION` is 5.
unfoldable pub set_server_listen : System → Setup → Step
set_server_listen sys s =
    let listening = called (call_listen s.server_sock 5) s in
    if is_error sys.of_listen
    then failed (text "listen error") (called (call_close s.server_sock) listening)
    else up listening

unfoldable pub kqueue_init : System → Setup → Step
unfolding change_event
kqueue_init sys s =
    let queued = called call_kqueue (record s { kq = sys.of_kqueue }) in
    let changed = record queued { change_list = change_event s.server_sock 0 s.change_list } in
    let watched = called (call_kevent sys.of_kqueue changed.change_list) changed in
    if is_error sys.of_kqueue
    then failed (text "kqueue error") (called (call_close s.server_sock) queued)
    else if is_error sys.of_kevent
    then failed (text "ERROR :: kevent() error") watched
    else up watched

-- `Server::run` up to `execute`
unfoldable pub start_server : System → Setup → Step
unfolding set_server_sock set_server_addr set_server_bind set_server_listen kqueue_init
start_server sys s = and_then (set_server_sock sys s) λ t.
    and_then (set_server_addr t) λ u.
      and_then (set_server_bind sys u) λ v. and_then (set_server_listen sys v) (kqueue_init sys)

-- The calls of `~Server` on the tables: every client and then the listening socket is closed.
unfoldable pub destroy : Server → Setup → List Call
unfolding close_clients
destroy tables s =
    s.calls
    ++ (map call_close (close_clients tables.client_list) ++ (call_close s.server_sock ∷ []))

-- How `main` ends: with a status, or not yet.
pub data Exit : Type 0 where
  exits : ℕ → Exit
  waits crashes loops : Exit

abbrev pub after_run : Outcome (Unit {0}) → Exit
after_run (ok _ _) = waits
after_run undefined = crashes
after_run threw = exits 0
after_run diverged = loops

abbrev pub fresh_tables : Text → List Change → Server
fresh_tables password changes = record {
  client_list = [];
  channel_list = [];
  password = password;
  send_nick_list = [];
  change_list = changes;
  sent = [];
  closed = [];
}

abbrev pub after_start : Text → List Report → Step → Exit
after_start password reports (up s) =
    after_run (execute reports (fresh_tables password s.change_list))
after_start password reports (failed what s) = exits 0

abbrev pub with_arguments : System → List Report → Arguments → Exit
with_arguments sys reports (accepted_arguments port password) =
    after_start password reports (start_server sys (new_server port))
with_arguments sys reports not_a_number = exits 1
with_arguments sys reports wrong_port = exits 1
with_arguments sys reports empty_password = exits 1
with_arguments sys reports long_password = exits 1

-- `main`, for the arguments behind the name of the program
unfoldable pub main : System → List Report → List Text → Exit
unfolding start_server filter_arguments
main sys reports (av1 ∷ av2 ∷ []) = with_arguments sys reports (filter_arguments av1 av2)
main sys reports arguments = exits 1
