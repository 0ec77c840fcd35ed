-- ===== src/Rules/Startup.antt =====
-- The set-up of the listening socket in IRC_PROTOCOL_SERVER/src/Server.cpp
use irc_protocol_server.Base.{
  ℕ, suc, ◌||◌, ◌%◌, ◌<◌, ℤ, int_key, nat_key, Text, text_key, ◌==◌, ◌≡◌, sym, ◌∙◌, ap, ◌↔◌, false,
  List, [], ◌∷◌, if◌then◌else◌, arith,
}
use irc_protocol_server.Server.{Change, evfilt_read, change_event}
use irc_protocol_server.Rules.Texts.{filter_arguments-bounds}
use irc_protocol_server.Events.{close_clients, filter_arguments, accepted_arguments}
use irc_protocol_server.Startup.{
  Call, call_socket, call_setsockopt, call_bind, call_listen, call_kqueue, call_kevent, call_close,
  System, Setup, up, failed, new_server, set_server_sock, set_server_addr, set_server_bind,
  set_server_listen, kqueue_init, start_server, destroy, fresh_tables, is_error,
}

-- No call has failed.
abbrev pub Works : System → Type 0
Works sys =
    (is_error sys.of_socket ≡ false)
    × (is_error sys.of_setsockopt ≡ false)
    × (is_error sys.of_bind ≡ false)
    × (is_error sys.of_listen ≡ false)
    × (is_error sys.of_kqueue ≡ false)
    × (is_error sys.of_kevent ≡ false)

abbrev watch : ℤ → List Change
watch fd = record { ident = fd; filter = evfilt_read } ∷ []

-- The server that listens on the port
abbrev pub listening : System → ℕ → Setup
listening sys port = record {
  port_num = port;
  server_sock = sys.of_socket;
  sin_port = port;
  kq = sys.of_kqueue;
  change_list = watch sys.of_socket;
  calls =
      call_socket
      ∷ call_setsockopt sys.of_socket
      ∷ call_bind sys.of_socket port
      ∷ call_listen sys.of_socket 5
      ∷ call_kqueue
      ∷ call_kevent sys.of_kqueue (watch sys.of_socket)
      ∷ [];
}

small_port : (port : ℕ) → port < 65536 → port % 65536 ≡ port
small_port port small = omega arith

start_server-listening :
    (sys : System) (port : ℕ)
    → port < 65536
    → Works sys
    → start_server sys (new_server port) ≡ up (listening sys port)
unfolding start_server new_server set_server_sock set_server_addr set_server_bind set_server_listen
    kqueue_init change_event
start_server-listening sys port small (a, b, c, d, e, f) = ground (arith, small_port port small)

start_server-Works :
    (sys : System) (port : ℕ) (t : Setup) → start_server sys (new_server port) ≡ up t → Works sys
unfolding start_server new_server set_server_sock set_server_addr set_server_bind set_server_listen
    kqueue_init change_event
start_server-Works sys port t done =
    (ground arith, ground arith, ground arith, ground arith, ground arith, ground arith)

same_setup : (s t : Setup) → up s ≡ up t → s ≡ t
same_setup s t e = ground (arith, e)

-- The set-up on a port below 65536 succeeds exactly if no system call fails, and what it leaves
-- then is a server that listens on the port and a queue that watches its socket.
pub start_server-up :
    (sys : System) (port : ℕ) (t : Setup)
    → port < 65536
    → (start_server sys (new_server port) ≡ up t) ↔ (Works sys × (t ≡ listening sys port))
start_server-up sys port t small = (
  λ done.
      let works = start_server-Works sys port t done in
      (
        works,
        same_setup t (listening sys port) (sym done ∙ start_server-listening sys port small works),
      ),
  λ (works, is). start_server-listening sys port small works ∙ ap up (sym is),
)

-- How often a descriptor is closed
pub closes : ℤ → List Call → ℕ
closes fd [] = 0
closes fd (call_close j ∷ calls) = let rest = closes fd calls in if j == fd then suc rest else rest
closes fd (call_socket ∷ calls) = closes fd calls
closes fd (call_setsockopt _ ∷ calls) = closes fd calls
closes fd (call_bind _ _ ∷ calls) = closes fd calls
closes fd (call_listen _ _ ∷ calls) = closes fd calls
closes fd (call_kqueue ∷ calls) = closes fd calls
closes fd (call_kevent _ _ ∷ calls) = closes fd calls

-- Where the set-up throws after it got a socket, the socket is closed when the server is destroyed:
-- once where kevent failed, and twice, which is once too often, where another call did.
pub start_server-closes :
    (sys : System) (port : ℕ) (password : Text) (what : Text) (s : Setup)
    → is_error sys.of_socket ≡ false
    → start_server sys (new_server port) ≡ failed what s
    → closes sys.of_socket (destroy (fresh_tables password []) s) ≡ (
        if is_error sys.of_setsockopt
          || (is_error sys.of_bind || (is_error sys.of_listen || is_error sys.of_kqueue))
        then 2
        else 1)
unfolding start_server new_server set_server_sock set_server_addr set_server_bind set_server_listen
    kqueue_init change_event destroy close_clients closes
start_server-closes sys port password what s made e =
    ground (arith, int_key.beq_iff sys.of_socket sys.of_socket)

-- The port that `filter` accepts is the port that is kept: the `unsigned short` holds it.
pub filter_arguments-port_num :
    (av1 av2 password : Text) (port : ℕ)
    → filter_arguments av1 av2 ≡ accepted_arguments port password
    → (new_server port).port_num ≡ port
unfolding new_server
filter_arguments-port_num av1 av2 password port e =
    let (_, _, _, small, _, _, _) = (filter_arguments-bounds av1 av2 port password).0 e in
    small_port port (omega (arith, small))
