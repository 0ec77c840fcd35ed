-- ===== src/Rules/Parts.antt =====
-- Messages that come in parts, in `Command::run` of IRC_PROTOCOL_SERVER/src/Command.cpp
use mathlib.Core.List.{append-nil, append_assoc}
use irc_protocol_server.Base.{
  ℤ, int_key, nat_key, Text, text, text_key, ◌≡◌, refl, sym, ◌∙◌, ap, true, false, ◌&&◌, some, List,
  [], ◌∷◌, ◌++◌, contains, find, update, update-update, insert_present,
}
use irc_protocol_server.Client.{
  Client, default_client, write_eof_buffer, set_eof_flag, clear_eof_buffer,
}
use irc_protocol_server.Server.{
  Server, ok, pure, ◌>>=◌, for_each, when◌act◌otherwise◌, gets, modify, lookup_client, client_at,
  index_client, modify_client,
}
use irc_protocol_server.Server.Counts.{put_client, written-found}
use irc_protocol_server.Util.{is_infix}
use irc_protocol_server.Command.Parse.{cmd_words}
use irc_protocol_server.Command.Dispatch.{keep_partial, take_eof_buffer, run_message, dispatch}

-- A text is put behind what waits.
abbrev waiting : Text → Client → Client
waiting part c = record c { eof_buffer = c.eof_buffer ++ part; eof_flag = true }

-- Nothing waits.
abbrev pub nothing_kept : Client → Client
nothing_kept c = record c { eof_buffer = []; eof_flag = false }

waiting-waiting :
    (fd : ℤ) (part rest : Text) (s : Server)
    → put_client fd (waiting rest) (put_client fd (waiting part) s)
      ≡ put_client fd (waiting (part ++ rest)) s
waiting-waiting fd part rest s =
    ap (λ m. record s { client_list = m })
      (update-update fd (waiting part) (waiting rest) s.client_list
        ∙ ap (λ f. update fd f s.client_list)
            (λ i. λ c. record c {
              eof_buffer = append_assoc c.eof_buffer part rest i;
              eof_flag = true;
            }))

index_client-found :
    (fd : ℤ) (s : Server) (c : Client) → find fd s.client_list ≡ some c → index_client fd s ≡ ok c s
unfolding index_client client_at lookup_client gets modify pure ◌>>=◌
index_client-found fd s c here =
    rw (insert_present fd (default_client false) c s.client_list here, here) refl

modify_client-found :
    (fd : ℤ) (f : Client → Client) (s : Server) (c : Client)
    → find fd s.client_list ≡ some c
    → modify_client fd f s ≡ ok tt (put_client fd f s)
unfolding modify_client
modify_client-found fd f s c here = rw here refl

keep_partial-waiting :
    (fd : ℤ) (part : Text) (s : Server) (c : Client)
    → find fd s.client_list ≡ some c
    → keep_partial fd part s ≡ ok tt (put_client fd (waiting part) s)
unfolding keep_partial ◌>>=◌ write_eof_buffer set_eof_flag
keep_partial-waiting fd part s c here =
    let written = written-found fd (write_eof_buffer part) s c here in
    rw
      (
        index_client-found fd s c here,
        modify_client-found fd (write_eof_buffer part) s c here,
        modify_client-found fd (set_eof_flag true) (put_client fd (write_eof_buffer part) s)
            (write_eof_buffer part c) written,
      )
      (ap (λ m. ok tt (record s { client_list = m }))
        (update-update fd (write_eof_buffer part) (set_eof_flag true) s.client_list))

-- A part of a message: no newline in it yet
abbrev pub IsPart : Text → Type 0
IsPart part = (is_infix (text "CAP LS") part ≡ false) × (contains 10 part ≡ false)

abbrev pub AllParts : List Text → Type 0
AllParts [] = Unit {0}
AllParts (part ∷ parts) = IsPart part × AllParts parts

abbrev pub joined_parts : List Text → Text
joined_parts [] = []
joined_parts (part ∷ parts) = part ++ joined_parts parts

run_message-waiting :
    (fd : ℤ) (part : Text) (s : Server) (c : Client)
    → IsPart part
    → find fd s.client_list ≡ some c
    → run_message fd part s ≡ ok tt (put_client fd (waiting part) s)
unfolding run_message when◌act◌otherwise◌
run_message-waiting fd part s c (no_cap, no_newline) here =
    rw (no_cap, no_newline) (keep_partial-waiting fd part s c here)

run_messages-waiting :
    (fd : ℤ) (part : Text) (parts : List Text) (s : Server) (c : Client)
    → AllParts (part ∷ parts)
    → find fd s.client_list ≡ some c
    → for_each (part ∷ parts) (run_message fd) s
      ≡ ok tt (put_client fd (waiting (joined_parts (part ∷ parts))) s)
unfolding for_each ◌>>=◌ pure
run_messages-waiting fd part [] s c (is_part, all) here =
    rw (run_message-waiting fd part s c is_part here)
      (ap (λ p. ok tt (put_client fd (waiting p) s)) (sym (append-nil part)))
run_messages-waiting fd part (next ∷ parts) s c (is_part, all) here =
    rw (run_message-waiting fd part s c is_part here) (
      run_messages-waiting fd next parts (put_client fd (waiting part) s) _ all
        (written-found fd (waiting part) s c here)
      ∙ ap (ok tt) (waiting-waiting fd part (joined_parts (next ∷ parts)) s))

-- What waits is taken in front of the message.
take_eof_buffer-waiting :
    (fd : ℤ) (kept last : Text) (s : Server) (c : Client)
    → find fd s.client_list ≡ some c
    → take_eof_buffer fd last (put_client fd (waiting kept) s)
      ≡ ok ((c.eof_buffer ++ kept) ++ last) (put_client fd nothing_kept s)
unfolding take_eof_buffer ◌>>=◌ when◌act◌otherwise◌ pure set_eof_flag clear_eof_buffer
take_eof_buffer-waiting fd kept last s c here =
    let t = put_client fd (waiting kept) s in
    let there = written-found fd (waiting kept) s c here in
    rw
      (
        index_client-found fd t _ there,
        modify_client-found fd (set_eof_flag false) t _ there,
        modify_client-found fd clear_eof_buffer (put_client fd (set_eof_flag false) t)
            (set_eof_flag false (waiting kept c)) (written-found fd (set_eof_flag false) t _ there),
      )
      (ap (λ m. ok ((c.eof_buffer ++ kept) ++ last) (record s { client_list = m }))
        (update-update fd (set_eof_flag false) clear_eof_buffer
            (update fd (waiting kept) s.client_list)
          ∙ update-update fd (waiting kept) (λ d. clear_eof_buffer (set_eof_flag false d))
              s.client_list))

run_messages-then :
    (fd : ℤ) (part : Text) (parts : List Text) (last : Text) (s : Server) (c : Client)
    → AllParts (part ∷ parts)
    → find fd s.client_list ≡ some c
    → (for_each (part ∷ parts) (run_message fd) >>= λ _. run_message fd last) s
      ≡ run_message fd last (put_client fd (waiting (joined_parts (part ∷ parts))) s)
unfolding ◌>>=◌
run_messages-then fd part parts last s c all here =
    rw (run_messages-waiting fd part parts s c all here) refl

-- Parts of a message with no newline, nor "CAP LS", in them, and then a rest with a newline that
-- has neither "CAP LS" nor all of "PASS", "NICK" and "USER" in it, of a client on the server: the
-- handlers get the words of what was kept before, the parts and the rest in their order, in a
-- state where nothing is kept for that client and all else is as it was before the first part.
pub run_message-dispatch :
    (fd : ℤ) (part : Text) (parts : List Text) (last : Text) (s : Server) (c : Client)
    → AllParts (part ∷ parts)
    → contains 10 last ≡ true
    → is_infix (text "CAP LS") last ≡ false
    → (is_infix (text "PASS") last && (is_infix (text "NICK") last && is_infix (text "USER") last))
      ≡ false
    → find fd s.client_list ≡ some c
    → (for_each (part ∷ parts) (run_message fd) >>= λ _. run_message fd last) s
      ≡ dispatch fd
          (cmd_words (c.eof_buffer ++ (joined_parts (part ∷ parts) ++ last)))
          (put_client fd nothing_kept s)
unfolding ◌>>=◌ run_message when◌act◌otherwise◌
run_message-dispatch fd part parts last s c all newline no_cap no_irssi here =
    let kept = joined_parts (part ∷ parts) in
    run_messages-then fd part parts last s c all here
    ∙ rw (no_cap, newline, no_irssi, take_eof_buffer-waiting fd kept last s c here)
        (ap (λ m. dispatch fd (cmd_words m) (put_client fd nothing_kept s))
          (append_assoc c.eof_buffer kept last))
