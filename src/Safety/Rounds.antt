-- ===== src/Safety/Rounds.antt =====
-- The rounds of `Server::execute` (IRC_PROTOCOL_SERVER/src/Server.cpp) over the events that kevent
-- gives, and the states that they reach
use irc_protocol_server.Base.{
  int_key, Text, text_key, ◌≡◌, ◌≢◌, refl, List, [], ◌∷◌, find, arith, count,
}
use irc_protocol_server.Server.{Server, Outcome, ok, Change}
use irc_protocol_server.Server.Ensures.{Ensures-pure, Ensures-mono, Ensures-modify}
use irc_protocol_server.Server.Keeps.{
  Keeps, Keeps-Ensures, Keeps-bind, Keeps-after, Keeps-throw, Keeps-with_client, Keeps-for_each,
  Keeps-ok, Ends, ended, at_undefined, at_exception,
}
use irc_protocol_server.Server.Links.{
  WellFormed, Same-WellFormed, Same-of_tables, member, joined, shape_at, roll_at,
}
use irc_protocol_server.Events.{
  Event, server_error, client_error, accept_failed, accepted, readable, handle_event, serve, Report,
  kevent_failed, kevent_gave, execute, Arguments, filter_arguments, accepted_arguments,
  not_a_number, wrong_port, empty_password, long_password,
}
use irc_protocol_server.Startup.{
  System, loops, Step, up, failed, after_run, after_start, with_arguments, fresh_tables, new_server,
  start_server, main,
}
use irc_protocol_server.Safety.Connections.{accept_client-WellFormed, disconnect_client-WellFormed}
use irc_protocol_server.Safety.Dispatch.{run-Keeps}
use irc_protocol_server.Safety.Sending.{flush-Same}

-- Whatever kevent reports, the loop body ends, and where it goes on, the tables are well-formed.
pub handle_event-Keeps :
    (event : Event) (s : Server) → WellFormed s → Keeps (handle_event event) s (λ _. WellFormed)
unfolding handle_event
handle_event-Keeps server_error s w =
    Keeps-bind {Q = λ _ _. Unit {0}} _ _ s (Keeps-Ensures (Ensures-modify _ s tt))
      λ _ t _. Keeps-throw t
handle_event-Keeps (client_error fd) s w = Keeps-Ensures (disconnect_client-WellFormed fd s w)
handle_event-Keeps accept_failed s w = Keeps-throw s
handle_event-Keeps (accepted fd flag) s w = Keeps-Ensures (accept_client-WellFormed fd flag s w)
handle_event-Keeps (readable fd received) s w =
    Keeps-with_client s fd _ (λ _. Keeps-Ensures (Ensures-pure tt s w))
      λ _ _. run-Keeps fd received s w

-- A round over any events, from well-formed tables, ends, and where it ends with no exception and no
-- undefined behaviour, it leaves the tables well-formed.
pub serve-Keeps :
    (events : List Event) (s : Server) → WellFormed s → Keeps (serve events) s (λ _. WellFormed)
unfolding serve
serve-Keeps events s w =
    Keeps-after _ _ s (Ensures-modify _ s (Same-WellFormed (Same-of_tables refl refl) w)) λ _ r w'.
      Keeps-bind _ _ r (Keeps-for_each handle_event-Keeps events r w') λ _ t well.
        Keeps-Ensures (Ensures-mono (flush-Same t) λ _ u same. Same-WellFormed same well)

-- The loop, over whatever kevent gives, from well-formed tables never hangs outside kevent, and where
-- it goes on after a round, the tables are well-formed.
pub execute-Keeps :
    (reports : List Report) (s : Server)
    → WellFormed s
    → Keeps (execute reports) s (λ _. WellFormed)
unfolding execute
execute-Keeps [] s w = Keeps-Ensures (Ensures-pure tt s w)
execute-Keeps (kevent_failed ∷ reports) s w = Keeps-throw s
execute-Keeps (kevent_gave events ∷ reports) s w =
    Keeps-bind _ _ s (serve-Keeps events s w) λ _ t w'. execute-Keeps reports t w'

-- The states between the rounds
pub data Reachable (password : Text) (changes : List Change) : Server → Type 0 where
  start : Reachable password changes (fresh_tables password changes)
  round :
      {s t : Server} (events : List Event)
      → Reachable password changes s
      → serve events s ≡ ok tt t
      → Reachable password changes t

pub fresh_tables-WellFormed :
    (password : Text) (changes : List Change) → WellFormed (fresh_tables password changes)
unfolding member joined shape_at roll_at find count
fresh_tables-WellFormed password changes = record {
  linked = λ fd name. refl;
  named = λ name c e. ground arith;
  keyed = λ fd c e. ground arith;
  outside = λ fd c e out. ground arith;
  once = λ fd name. omega arith;
  nicks = λ i j a b p q same star. ground arith;
  distinct = λ fd. omega arith;
}

-- In every state that the server reaches the tables are well-formed: a channel lists a client exactly
-- as often as the client lists the channel, and at most once; who is not registered is in no channel;
-- and no two clients share a nickname other than the first one, "*".
pub Reachable-WellFormed :
    (password : Text) (changes : List Change) (s : Server)
    → Reachable password changes s
    → WellFormed s
Reachable-WellFormed password changes s start = fresh_tables-WellFormed password changes
Reachable-WellFormed password changes s (round {s = before} events reached run) =
    Keeps-ok tt s (serve-Keeps events before (Reachable-WellFormed password changes before reached))
      run

after_run-loops :
    (reports : List Report) (s : Server) → WellFormed s → after_run (execute reports s) ≢ loops
after_run-loops reports s w = ends (execute-Keeps reports s w).outcome
  where
    ends : {o : Outcome (Unit {0})} → Ends (λ _. WellFormed) o → after_run o ≢ loops
    ends (ended w') e = ground arith
    ends at_undefined e = ground arith
    ends at_exception e = ground arith

after_start-loops :
    (password : Text) (reports : List Report) (step : Step)
    → after_start password reports step ≢ loops
after_start-loops password reports (up s) =
    after_run-loops reports _ (fresh_tables-WellFormed password s.change_list)
after_start-loops password reports (failed what s) = λ e. ground arith

with_arguments-loops :
    (sys : System) (reports : List Report) (arguments : Arguments)
    → with_arguments sys reports arguments ≢ loops
with_arguments-loops sys reports (accepted_arguments port password) =
    after_start-loops password reports (start_server sys (new_server port))
with_arguments-loops sys reports not_a_number = λ e. ground arith
with_arguments-loops sys reports wrong_port = λ e. ground arith
with_arguments-loops sys reports empty_password = λ e. ground arith
with_arguments-loops sys reports long_password = λ e. ground arith

-- `main` does not hang outside kevent, whatever its arguments and the system calls are.
pub main-loops :
    (sys : System) (reports : List Report) (arguments : List Text)
    → main sys reports arguments ≢ loops
unfolding main
main-loops sys reports [] e = ground arith
main-loops sys reports (av1 ∷ []) e = ground arith
main-loops sys reports (av1 ∷ av2 ∷ []) e =
    with_arguments-loops sys reports (filter_arguments av1 av2) e
main-loops sys reports (av1 ∷ av2 ∷ more ∷ rest) e = ground arith
