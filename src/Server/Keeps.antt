-- ===== src/Server/Keeps.antt =====
-- Actions that end: in a state with a given property, in undefined behaviour or in an exception.
use irc_protocol_server.Base.{
  ℤ, int_key, Text, text_key, ◌≡◌, refl, sym, Bool, true, false, Option, none, some, List, [], ◌∷◌,
  find, Option-cases, inl, inr,
}
use irc_protocol_server.Client.{Client}
use irc_protocol_server.Channel.{Channel}
use irc_protocol_server.Server.State.{
  Server, Outcome, ok, undefined, threw, M, undefined_behaviour, throw_exception, follow,
  when◌act◌otherwise◌, ◌>>=◌, for_each,
}
use irc_protocol_server.Server.Tables.{
  client_at, deref_client, lookup_client, find_channel, find_client, with_nickname,
}
use irc_protocol_server.Server.Ensures.{Ensures, Returns, returns, Ensures-pure}
use irc_protocol_server.Server.Quiet.{
  lookup_client-Ensures, find_channel-Ensures, find_client-Ensures,
}

pub data Ends {A : Type 0} (Q : A → Server → Type 0) : Outcome A → Type 0 where
  ended : {a : A} {s : Server} → Q a s → Ends Q (ok a s)
  at_undefined : Ends Q undefined
  at_exception : Ends Q threw

-- From `s` the action does not go on for ever, and where it returns, `Q` holds of the result and of
-- the state that it leaves.
pub record Keeps {A : Type 0} (m : M A) (s : Server) (Q : A → Server → Type 0) : Type 0 where
  pub outcome : Ends Q (m s)

Ends-Returns : {A : Type 0} {Q : A → Server → Type 0} {o : Outcome A} → Returns Q o → Ends Q o
Ends-Returns (returns q) = ended q

Ends-mono :
    {A : Type 0} {Q R : A → Server → Type 0} {o : Outcome A}
    → Ends Q o
    → ((a : A) (s : Server) → Q a s → R a s)
    → Ends R o
Ends-mono (ended {a = a} {s = s} q) h = ended (h a s q)
Ends-mono at_undefined h = at_undefined
Ends-mono at_exception h = at_exception

Ends-follow :
    {A B : Type 0} {Q : A → Server → Type 0} {R : B → Server → Type 0} {o : Outcome A} {f : A → M B}
    → Ends Q o
    → ((a : A) (s : Server) → Q a s → Keeps (f a) s R)
    → Ends R (follow o f)
Ends-follow (ended {a = a} {s = s} q) h = (h a s q).outcome
Ends-follow at_undefined h = at_undefined
Ends-follow at_exception h = at_exception

module _ {A : Type 0} {Q : A → Server → Type 0} where
  -- An action that is sure to return
  pub Keeps-Ensures : {m : M A} {s : Server} → Ensures m s Q → Keeps m s Q
  Keeps-Ensures h = record { outcome = Ends-Returns h.outcome }

  pub Keeps-bind :
      {B : Type 0} {R : B → Server → Type 0} (m : M A) (f : A → M B) (s : Server)
      → Keeps m s Q
      → ((a : A) (t : Server) → Q a t → Keeps (f a) t R)
      → Keeps (m >>= f) s R
  unfolding ◌>>=◌
  Keeps-bind m f s h k = record { outcome = Ends-follow h.outcome k }

  pub Keeps-mono :
      {R : A → Server → Type 0} {m : M A} {s : Server}
      → Keeps m s Q
      → ((a : A) (t : Server) → Q a t → R a t)
      → Keeps m s R
  Keeps-mono h k = record { outcome = Ends-mono h.outcome k }

  pub Keeps-undefined : (s : Server) → Keeps undefined_behaviour s Q
  unfolding undefined_behaviour
  Keeps-undefined s = record { outcome = at_undefined }

  pub Keeps-throw : (s : Server) → Keeps throw_exception s Q
  unfolding throw_exception
  Keeps-throw s = record { outcome = at_exception }

  pub Keeps-when :
      (b : Bool) (m n : M A) (s : Server)
      → (b ≡ true → Keeps m s Q)
      → (b ≡ false → Keeps n s Q)
      → Keeps (when b act m otherwise n) s Q
  unfolding when◌act◌otherwise◌
  Keeps-when true m n s km kn = km refl
  Keeps-when false m n s km kn = kn refl

  -- An action that is sure to return first
  pub Keeps-after :
      {B : Type 0} {R : B → Server → Type 0} (m : M A) (f : A → M B) (s : Server)
      → Ensures m s Q
      → ((a : A) (t : Server) → Q a t → Keeps (f a) t R)
      → Keeps (m >>= f) s R
  Keeps-after m f s h k = Keeps-bind m f s (Keeps-Ensures h) k

-- A loop keeps what each of its rounds keeps.
pub Keeps-for_each :
    {A : Type 0} {P : Server → Type 0} {body : A → M (Unit {0})}
    → ((a : A) (s : Server) → P s → Keeps (body a) s (λ _. P))
    → (as' : List A) (s : Server) → P s
    → Keeps (for_each as' body) s (λ _. P)
unfolding for_each
Keeps-for_each keep [] s p = Keeps-Ensures (Ensures-pure tt s p)
Keeps-for_each {body = body} keep (a ∷ rest) s p =
    Keeps-bind (body a) _ s (keep a s p) λ _ t p'. Keeps-for_each keep rest t p'

-- The lookup of a client, and what follows from it
pub Keeps-with_client :
    {A : Type 0} {Q : A → Server → Type 0} (s : Server) (fd : ℤ) (f : Option Client → M A)
    → (find fd s.client_list ≡ none → Keeps (f none) s Q)
    → ((c : Client) → find fd s.client_list ≡ some c → Keeps (f (some c)) s Q)
    → Keeps (lookup_client fd >>= f) s Q
Keeps-with_client s fd f missing found =
    Keeps-after (lookup_client fd) f s (lookup_client-Ensures fd s) λ o t (e, same).
      elim (Option-cases (find fd s.client_list)) [
        | inl absent ↦ rw (same, e, absent) (missing absent)
        | inr (c, there) ↦ rw (same, e, there) (found c there)
      ]

-- What a run that returns leaves
pub Keeps-ok :
    {A : Type 0} {Q : A → Server → Type 0} {m : M A} {s : Server} (a : A) (t : Server)
    → Keeps m s Q
    → m s ≡ ok a t
    → Q a t
Keeps-ok {Q = Q} a t h e = ends (rw (sym e) h.outcome)
  where
    ends : Ends Q (ok a t) → Q a t
    ends (ended q) = q

-- The lookup of a channel, and what follows from it
pub Keeps-with_channel :
    {A : Type 0} {Q : A → Server → Type 0} (s : Server) (name : Text) (f : Option Channel → M A)
    → (find name s.channel_list ≡ none → Keeps (f none) s Q)
    → ((c : Channel) → find name s.channel_list ≡ some c → Keeps (f (some c)) s Q)
    → Keeps (find_channel name >>= f) s Q
Keeps-with_channel s name f missing found =
    Keeps-after (find_channel name) f s (find_channel-Ensures name s) λ o t (e, same).
      elim (Option-cases (find name s.channel_list)) [
        | inl absent ↦ rw (same, e, absent) (missing absent)
        | inr (c, there) ↦ rw (same, e, there) (found c there)
      ]

-- The search by nickname, and what follows from it
pub Keeps-with_named :
    {A : Type 0} {Q : A → Server → Type 0} (s : Server) (name : Text)
    (f : Option (ℤ × Client) → M A)
    → (with_nickname name s.client_list ≡ none → Keeps (f none) s Q)
    → ((p : ℤ × Client) → with_nickname name s.client_list ≡ some p → Keeps (f (some p)) s Q)
    → Keeps (find_client name >>= f) s Q
Keeps-with_named s name f missing found =
    Keeps-after (find_client name) f s (find_client-Ensures name s) λ o t (e, same).
      elim (Option-cases (with_nickname name s.client_list)) [
        | inl absent ↦ rw (same, e, absent) (missing absent)
        | inr (p, there) ↦ rw (same, e, there) (found p there)
      ]

-- The read of a client, which is undefined where there is none
pub Keeps-at_client :
    {A : Type 0} {Q : A → Server → Type 0} (s : Server) (fd : ℤ) (f : Client → M A)
    → ((c : Client) → find fd s.client_list ≡ some c → Keeps (f c) s Q)
    → Keeps (client_at fd >>= f) s Q
unfolding client_at
Keeps-at_client s fd f found =
    Keeps-bind {Q = λ c t. (find fd s.client_list ≡ some c) × (t ≡ s)} (client_at fd) f s
      (Keeps-with_client s fd deref_client (λ _. Keeps-undefined s)
        λ c here. Keeps-Ensures (Ensures-pure c s (here, refl)))
      λ c t (here, same). rw same (found c here)
