-- ===== src/Server/State.antt =====
-- The fields of `Server` and `Command` that change, the system calls that were made, and actions on
-- them. An action may also end in undefined behaviour or an exception, or go on for ever.
use irc_protocol_server.Base.{ℤ, Text, Bool, true, false, List, [], ◌∷◌, Map}
use irc_protocol_server.Client.{Client}
use irc_protocol_server.Channel.{Channel}

-- What `EV_SET` made of a descriptor; with a flag that `changeEvent` does not know it is not run.
pub data Filter : Type 0 where
  evfilt_read evfilt_write indeterminate : Filter

pub record Change : Type 0 where
  pub ident : ℤ
  pub filter : Filter

-- A `Channel*` of the table is owned by its entry, so the entry holds the channel itself.
pub record Server : Type 0 where
  pub client_list : Map ℤ Client
  pub channel_list : Map Text Channel
  pub password : Text
  pub send_nick_list : List ℤ
  -- the changes for the next call of kevent
  pub change_list : List Change
  -- the calls of `send`, in order: the descriptor and the bytes
  pub sent : List (ℤ × Text)
  -- the calls of `close`, in order
  pub closed : List ℤ

pub data Outcome (A : Type 0) : Type 0 where
  ok : A → Server → Outcome A
  -- a read or write through an end iterator or a null pointer
  undefined : Outcome A
  -- an exception, which ends in `main`
  threw : Outcome A
  -- a loop that never ends
  diverged : Outcome A

abbrev pub M : Type 0 → Type 0
M A = Server → Outcome A

unfoldable pub pure : {A : Type 0} → A → M A
pure a s = ok a s

unfoldable pub undefined_behaviour : {A : Type 0} → M A
undefined_behaviour s = undefined

unfoldable pub throw_exception : {A : Type 0} → M A
throw_exception s = threw

unfoldable pub for_ever : {A : Type 0} → M A
for_ever s = diverged

abbrev pub follow : {A B : Type 0} → Outcome A → (A → M B) → Outcome B
follow (ok a s) f = f a s
follow undefined f = undefined
follow threw f = threw
follow diverged f = diverged

-- Opening this opens `pure` and the three ways to fail too.
infixl 5 ◌>>=◌ ◌>>◌
unfoldable pub ◌>>=◌ : {A B : Type 0} → M A → (A → M B) → M B
unfolding pure undefined_behaviour throw_exception for_ever
◌>>=◌ m f s = follow (m s) f

abbrev pub ◌>>◌ : {B : Type 0} → M (Unit {0}) → M B → M B
m >> k = m >>= λ _. k

unfoldable pub gets : {A : Type 0} → (Server → A) → M A
gets f s = ok (f s) s

unfoldable pub modify : (Server → Server) → M (Unit {0})
modify f s = ok tt (f s)

-- A loop over a vector.
unfoldable pub for_each : {A : Type 0} → List A → (A → M (Unit {0})) → M (Unit {0})
for_each [] body = pure tt
for_each (a ∷ rest) body = body a >> for_each rest body

-- `if` between actions; shut, so that the rules below read its parts.
infix 1 when◌act◌otherwise◌
unfoldable pub when◌act◌otherwise◌ : {A : Type 0} → Bool → M A → M A → M A
when true act m otherwise n = m
when false act m otherwise n = n
