-- ===== src/Server/Obeys.antt =====
-- Actions that keep a property of the tables wherever they return, and the rules for the ways to
-- build one.
use irc_protocol_server.Base.{
  ℤ, int_key, Text, ◌≡◌, refl, Bool, true, false, Option, none, some, List, [], ◌∷◌,
}
use irc_protocol_server.Client.{Client}
use irc_protocol_server.Channel.{Channel}
use irc_protocol_server.Server.State.{
  Server, M, pure, undefined_behaviour, throw_exception, for_ever, when◌act◌otherwise◌, ◌>>=◌, gets,
  modify, for_each,
}
use irc_protocol_server.Server.Tables.{
  find_client, lookup_client, deref_client, client_at, modify_client, index_client, find_channel,
  deref_channel, send_buffer, dismiss,
}
use irc_protocol_server.Server.Yields.{Yields, Yields-bind}

pub record Obeys (P : Server → Type 0) {A : Type 0} (m : M A) : Type 0 where
  pub run : (s : Server) → P s → Yields m s (λ _. P)

module _ {P : Server → Type 0} where
  pub Obeys-bind :
      {A B : Type 0} {m : M A} {f : A → M B}
      → Obeys P m
      → ((a : A) → Obeys P (f a))
      → Obeys P (m >>= f)
  Obeys-bind h k = record { run = λ s p. Yields-bind _ _ s (h.run s p) λ a t p'. (k a).run t p' }

  pub Obeys-pure : {A : Type 0} (a : A) → Obeys P (pure a)
  unfolding pure
  Obeys-pure a = record { run = λ s p. record { outcome = p } }

  pub Obeys-undefined : {A : Type 0} → Obeys P (undefined_behaviour {A = A})
  unfolding undefined_behaviour
  Obeys-undefined = record { run = λ s p. record { outcome = tt } }

  pub Obeys-throw : {A : Type 0} → Obeys P (throw_exception {A = A})
  unfolding throw_exception
  Obeys-throw = record { run = λ s p. record { outcome = tt } }

  pub Obeys-for_ever : {A : Type 0} → Obeys P (for_ever {A = A})
  unfolding for_ever
  Obeys-for_ever = record { run = λ s p. record { outcome = tt } }

  pub Obeys-gets : {A : Type 0} (f : Server → A) → Obeys P (gets f)
  unfolding gets
  Obeys-gets f = record { run = λ s p. record { outcome = p } }

  pub Obeys-modify : (f : Server → Server) → ((s : Server) → P s → P (f s)) → Obeys P (modify f)
  unfolding modify
  Obeys-modify f h = record { run = λ s p. record { outcome = h s p } }

  pub Obeys-when :
      {A : Type 0} (b : Bool) {m n : M A}
      → Obeys P m
      → Obeys P n
      → Obeys P (when b act m otherwise n)
  unfolding when◌act◌otherwise◌
  Obeys-when true h k = h
  Obeys-when false h k = k

  pub Obeys-for_each :
      {A : Type 0} {body : A → M (Unit {0})} (as' : List A)
      → ((a : A) → Obeys P (body a))
      → Obeys P (for_each as' body)
  unfolding for_each
  Obeys-for_each [] h = Obeys-pure tt
  Obeys-for_each (a ∷ rest) h = Obeys-bind (h a) λ _. Obeys-for_each rest h

  -- What follows an optional result
  pub Obeys-option :
      {A B : Type 0} {m : M (Option A)} (f : Option A → M B)
      → Obeys P m
      → Obeys P (f none)
      → ((a : A) → Obeys P (f (some a)))
      → Obeys P (m >>= f)
  Obeys-option {A} f h absent present = Obeys-bind h cases
    where
      cases : (o : Option A) → Obeys P (f o)
      cases none = absent
      cases (some a) = present a

  pub Obeys-find_channel : (name : Text) → Obeys P (find_channel name)
  unfolding find_channel
  Obeys-find_channel name = Obeys-gets _

  pub Obeys-deref_channel : (found : Option Channel) → Obeys P (deref_channel found)
  Obeys-deref_channel none = Obeys-undefined
  Obeys-deref_channel (some c) = Obeys-pure c

  pub Obeys-find_client : (name : Text) → Obeys P (find_client name)
  unfolding find_client
  Obeys-find_client name = Obeys-gets _

  pub Obeys-lookup_client : (fd : ℤ) → Obeys P (lookup_client fd)
  unfolding lookup_client
  Obeys-lookup_client fd = Obeys-gets _

  Obeys-deref_client : (found : Option Client) → Obeys P (deref_client found)
  Obeys-deref_client none = Obeys-undefined
  Obeys-deref_client (some c) = Obeys-pure c

  pub Obeys-client_at : (fd : ℤ) → Obeys P (client_at fd)
  unfolding client_at
  Obeys-client_at fd = Obeys-bind (Obeys-lookup_client fd) Obeys-deref_client

-- A property of the table of channels
abbrev pub OfChannels : (Server → Type 0) → Type 0
OfChannels P = (s t : Server) → t.channel_list ≡ s.channel_list → P s → P t

module _ {P : Server → Type 0} (of : OfChannels P) where
  pub Obeys-modify_client : (fd : ℤ) (f : Client → Client) → Obeys P (modify_client fd f)
  unfolding modify_client
  Obeys-modify_client fd f =
      Obeys-bind (Obeys-client_at fd) λ c. Obeys-modify _ λ s p. of s _ refl p

  pub Obeys-index_client : (fd : ℤ) → Obeys P (index_client fd)
  unfolding index_client
  Obeys-index_client fd = Obeys-bind (Obeys-modify _ λ s p. of s _ refl p) λ _. Obeys-client_at fd

  pub Obeys-send_buffer : (fd : ℤ) → Obeys P (send_buffer fd)
  unfolding send_buffer
  Obeys-send_buffer fd = Obeys-bind (Obeys-client_at fd) λ c. Obeys-modify _ λ s p. of s _ refl p

  pub Obeys-dismiss : (fd : ℤ) → Obeys P (dismiss fd)
  unfolding dismiss
  Obeys-dismiss fd = Obeys-bind (Obeys-modify_client fd _) λ _. Obeys-modify _ λ s p. of s _ refl p
