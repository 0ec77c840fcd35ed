-- ===== src/Lib.antt =====
-- The IRC server of IRC_PROTOCOL_SERVER, as functions on an explicit state.
--
-- The program keeps a table of clients by descriptor and a table of channels by name. An event loop
-- (IRC_PROTOCOL_SERVER/src/Server.cpp, `execute`) accepts connections and hands each message to
-- `Command::run`, which makes words of it and calls a handler; the handlers read and write both tables
-- and append replies to the buffers of clients, which the loop then sends.
--
-- Base: numbers, texts as lists of bytes, vectors and maps of the standard library, with the keys of a
--   map in `Keys`.
-- Client: IRC_PROTOCOL_SERVER/src/Client.cpp, the record `Client` and its setters.
-- Channel: IRC_PROTOCOL_SERVER/src/Channel.cpp, the record `Channel`, its lists and its modes.
-- Error: IRC_PROTOCOL_SERVER/src/Error.cpp, a function for each `ERROR_<name>_<number>`.
-- Server: the state of IRC_PROTOCOL_SERVER/src/Server.cpp and the actions on it. `State` has the
--   record, the outcomes and the monad; `Tables` has `findClient`, `findChannel`, `appendNewChannel`,
--   `removeChannel` and `disconnectClient`; `Ensures` is total correctness of actions; `Links` is the
--   invariant `WellFormed`: the two tables agree on who is in which channel, nobody is in one twice or
--   before registering, and no two clients share a nickname but the first one, "*"; `Counts`, `Quiet`,
--   `Changes`, `Entries` and `Alters` are the writes by their effect on it, and `Nicknames` is what the
--   search by nickname finds.
-- Util: IRC_PROTOCOL_SERVER/src/Util.cpp, with `Words` for the texts and `Broadcast` for
--   `messageAllChannel`, `plus_messageAllChannel`, `topicMessage` and `nameListMsg`.
-- Command: a module for each file of IRC_PROTOCOL_SERVER/command, `Parse` for `getMessage` and the
--   words of a message, `Irssi` for `irssiSignUp`, `Dispatch` for the rest of
--   IRC_PROTOCOL_SERVER/src/Command.cpp.
-- Events: the loop of `execute` over what kevent gives, and `filter` of IRC_PROTOCOL_SERVER/main.cpp.
-- Startup: the constructor, the set-up and the destructor of IRC_PROTOCOL_SERVER/src/Server.cpp, as the
--   system calls that they make, and `main`.
-- Safety: the handlers, the dispatch and the loop from well-formed tables; `Rounds` has the states that
--   the server reaches. Roster: who is in which channel as a specification, and the handlers that
--   refine it. Authority: what a client that is no operator may write of a channel, over all commands.
--   Rules: laws of guards, registration, nicknames, messages, topics, invitations, modes, texts,
--   numbers, broadcasts, messages in parts and the set-up. Tests: concrete servers.
--
-- A function name is the one of the source in lower case with `_`. A helper models one round of a loop
-- or one part of a handler. An action takes a `Server` and ends in `ok`, or in `undefined` for a read or
-- write through an end iterator or a null pointer, `threw` for an exception, `diverged` for a loop with
-- no end. A channel is held by its table entry, and a pointer to it is its name; `delete` is the
-- removal from the table. A write through an iterator is an update at its key.
--
-- Bounds: `free_nickname` takes one more than the number of clients as fuel, and each round takes a
-- nickname that is one byte longer. `read_words` takes the length of the line, since each word takes a
-- byte. `decimal` takes ten digits, which hold 32 bits. `atoi` cuts at the greatest `long` and keeps 32
-- bits.
--
-- `Server.Ensures` says that an action returns with a result; `Server.Keeps` says that it ends, and that
-- a result has the property where it returns: the read through an end iterator and the exceptions of the
-- code are then possible ends. `Server.Yields` speaks of the runs that return
-- only, and `Server.Obeys` of what such a run keeps from any state; both are joined with one of the others.
--
-- Not modelled: what the system calls do, output on the console, the fields of `sockaddr_in` but the
-- port, the exception classes, and the build files. What kevent, accept and recv report is the argument
-- `Report`, and what the calls of the set-up return is the argument `System`; what send and close get is
-- kept in the state, but for the close of the server's own socket in the loop. An exception drops the
-- state, so `destroy` is stated for the set-up. Descriptors are integers, and their reuse is an event
-- like any other.
pub mod Base
pub mod Client
pub mod Channel
pub mod Error
pub mod Server
pub mod Util
pub mod Command
pub mod Events
pub mod Startup
pub mod Safety
pub mod Authority
pub mod Roster
pub mod Rules
pub mod Tests
