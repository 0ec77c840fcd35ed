-- ===== src/Server/Yields.antt =====
-- Partial correctness of actions: what holds where a run returns. A run that goes on for ever, meets
-- undefined behaviour or throws is not spoken of.
use irc_protocol_server.Base.{
  ℤ, int_key, Text, text_key, ◌≡◌, refl, Bool, true, false, Option, none, some, find, Option-cases,
  inl, inr,
}
use irc_protocol_server.Client.{Client}
use irc_protocol_server.Channel.{Channel}
use irc_protocol_server.Server.Ensures.{Ensures, Returns, returns}
use irc_protocol_server.Server.State.{
  Server, Outcome, ok, undefined, threw, diverged, M, pure, follow, when◌act◌otherwise◌, ◌>>=◌,
  modify,
}
use irc_protocol_server.Server.Tables.{
  client_at, lookup_client, find_client, with_nickname, find_channel, deref_channel, modify_channel,
}
use irc_protocol_server.Server.Keeps.{Keeps, Ends, ended, at_undefined, at_exception}
use irc_protocol_server.Server.Counts.{put_channel}

abbrev AtEnd : {A : Type 0} → (A → Server → Type 0) → Outcome A → Type 0
AtEnd Q (ok a s) = Q a s
AtEnd Q undefined = Unit {0}
AtEnd Q threw = Unit {0}
AtEnd Q diverged = Unit {0}

-- Where the action returns from `s`, `Q` holds of the result and of the state that it leaves.
pub record Yields {A : Type 0} (m : M A) (s : Server) (Q : A → Server → Type 0) : Type 0 where
  pub outcome : AtEnd Q (m s)

AtEnd-follow :
    {A B : Type 0} (Q : A → Server → Type 0) (R : B → Server → Type 0) (o : Outcome A) (f : A → M B)
    → AtEnd Q o
    → ((a : A) (s : Server) → Q a s → Yields (f a) s R)
    → AtEnd R (follow o f)
AtEnd-follow Q R (ok a s) f q h = (h a s q).outcome
AtEnd-follow Q R undefined f q h = tt
AtEnd-follow Q R threw f q h = tt
AtEnd-follow Q R diverged f q h = tt

AtEnd-mono :
    {A : Type 0} (Q R : A → Server → Type 0) (o : Outcome A)
    → AtEnd Q o
    → ((a : A) (s : Server) → Q a s → R a s)
    → AtEnd R o
AtEnd-mono Q R (ok a s) q h = h a s q
AtEnd-mono Q R undefined q h = tt
AtEnd-mono Q R threw q h = tt
AtEnd-mono Q R diverged q h = tt

AtEnd-Ends :
    {A : Type 0} (Q R : A → Server → Type 0) (o : Outcome A)
    → Ends Q o
    → AtEnd R o
    → Ends (λ a s. Q a s × R a s) o
AtEnd-Ends Q R (ok a s) e r = both e
  where
    both : Ends Q (ok a s) → Ends (λ a' s'. Q a' s' × R a' s') (ok a s)
    both (ended q) = ended (q, r)
AtEnd-Ends Q R undefined e r = at_undefined
AtEnd-Ends Q R threw e r = at_exception
AtEnd-Ends Q R diverged e r = elim e [ ]

AtEnd-Returns :
    {A : Type 0} (Q R : A → Server → Type 0) (o : Outcome A)
    → Returns Q o
    → AtEnd R o
    → Returns (λ a s. Q a s × R a s) o
AtEnd-Returns Q R (ok a s) e r = both e
  where
    both : Returns Q (ok a s) → Returns (λ a' s'. Q a' s' × R a' s') (ok a s)
    both (returns q) = returns (q, r)
AtEnd-Returns Q R undefined e r = elim e [ ]
AtEnd-Returns Q R threw e r = elim e [ ]
AtEnd-Returns Q R diverged e r = elim e [ ]

Returns-AtEnd : {A : Type 0} (Q : A → Server → Type 0) (o : Outcome A) → Returns Q o → AtEnd Q o
Returns-AtEnd Q (ok a s) e = it e
  where
    it : Returns Q (ok a s) → Q a s
    it (returns q) = q
Returns-AtEnd Q undefined e = tt
Returns-AtEnd Q threw e = tt
Returns-AtEnd Q diverged e = tt

module _ {A : Type 0} {Q : A → Server → Type 0} where
  pub Yields-bind :
      {B : Type 0} {R : B → Server → Type 0} (m : M A) (f : A → M B) (s : Server)
      → Yields m s Q
      → ((a : A) (t : Server) → Q a t → Yields (f a) t R)
      → Yields (m >>= f) s R
  unfolding ◌>>=◌
  Yields-bind {R = R} m f s h k = record { outcome = AtEnd-follow Q R (m s) f h.outcome k }

  pub Yields-mono :
      {R : A → Server → Type 0} {m : M A} {s : Server}
      → Yields m s Q
      → ((a : A) (t : Server) → Q a t → R a t)
      → Yields m s R
  Yields-mono {R = R} {m = m} {s = s} h k = record { outcome = AtEnd-mono Q R (m s) h.outcome k }

  pub Yields-pure : (a : A) (s : Server) → Q a s → Yields (pure a) s Q
  unfolding pure
  Yields-pure a s q = record { outcome = q }

  pub Yields-when :
      (b : Bool) (m n : M A) (s : Server)
      → (b ≡ true → Yields m s Q)
      → (b ≡ false → Yields n s Q)
      → Yields (when b act m otherwise n) s Q
  unfolding when◌act◌otherwise◌
  Yields-when true m n s km kn = km refl
  Yields-when false m n s km kn = kn refl

  -- The lookup of a channel, and what follows from it
  pub Yields-with_channel :
      (s : Server) (name : Text) (f : Option Channel → M A)
      → (find name s.channel_list ≡ none → Yields (f none) s Q)
      → ((c : Channel) → find name s.channel_list ≡ some c → Yields (f (some c)) s Q)
      → Yields (find_channel name >>= f) s Q
  unfolding find_channel ◌>>=◌
  Yields-with_channel s name f missing found = elim (Option-cases (find name s.channel_list)) [
    | inl absent ↦ record { outcome = rw absent (missing absent).outcome }
    | inr (c, there) ↦ record { outcome = rw there (found c there).outcome }
  ]

  -- The read of a channel through the pointer that was found, and what follows from it
  pub Yields-at_channel :
      (s : Server) (name : Text) (f : Channel → M A)
      → ((c : Channel) → find name s.channel_list ≡ some c → Yields (f c) s Q)
      → Yields (find_channel name >>= deref_channel >>= f) s Q
  unfolding find_channel ◌>>=◌
  Yields-at_channel s name f found = elim (Option-cases (find name s.channel_list)) [
    | inl absent ↦ record { outcome = rw absent tt }
    | inr (c, there) ↦ record { outcome = rw there (found c there).outcome }
  ]

  -- The lookup of a client, and what follows from it
  pub Yields-with_client :
      (s : Server) (fd : ℤ) (f : Option Client → M A)
      → (find fd s.client_list ≡ none → Yields (f none) s Q)
      → ((c : Client) → find fd s.client_list ≡ some c → Yields (f (some c)) s Q)
      → Yields (lookup_client fd >>= f) s Q
  unfolding lookup_client ◌>>=◌
  Yields-with_client s fd f missing found = elim (Option-cases (find fd s.client_list)) [
    | inl absent ↦ record { outcome = rw absent (missing absent).outcome }
    | inr (c, there) ↦ record { outcome = rw there (found c there).outcome }
  ]

  -- The read of a client, and what follows from it
  pub Yields-at_client :
      (s : Server) (fd : ℤ) (f : Client → M A)
      → ((c : Client) → find fd s.client_list ≡ some c → Yields (f c) s Q)
      → Yields (client_at fd >>= f) s Q
  unfolding client_at lookup_client ◌>>=◌
  Yields-at_client s fd f found = elim (Option-cases (find fd s.client_list)) [
    | inl absent ↦ record { outcome = rw absent tt }
    | inr (c, there) ↦ record { outcome = rw there (found c there).outcome }
  ]

  -- The search by nickname, and what follows from it
  pub Yields-find_client :
      (s : Server) (name : Text) (f : Option (ℤ × Client) → M A)
      → ((o : Option (ℤ × Client)) → Yields (f o) s Q)
      → Yields (find_client name >>= f) s Q
  unfolding find_client ◌>>=◌
  Yields-find_client s name f k = record {
    outcome = (k (with_nickname name s.client_list)).outcome;
  }

  -- What is sure to return, and yields more
  pub Ensures-Yields :
      {R : A → Server → Type 0} {m : M A} {s : Server}
      → Ensures m s Q
      → Yields m s R
      → Ensures m s (λ a t. Q a t × R a t)
  Ensures-Yields {R = R} {m = m} {s = s} h k = record {
    outcome = AtEnd-Returns Q R (m s) h.outcome k.outcome;
  }

  pub Yields-Ensures : {m : M A} {s : Server} → Ensures m s Q → Yields m s Q
  Yields-Ensures {m = m} {s = s} h = record { outcome = Returns-AtEnd Q (m s) h.outcome }

  -- What is sure to end, and yields more where it returns
  pub Keeps-Yields :
      {R : A → Server → Type 0} {m : M A} {s : Server}
      → Keeps m s Q
      → Yields m s R
      → Keeps m s (λ a t. Q a t × R a t)
  Keeps-Yields {R = R} {m = m} {s = s} h k = record {
    outcome = AtEnd-Ends Q R (m s) h.outcome k.outcome;
  }

pub Yields-modify :
    {Q : Unit {0} → Server → Type 0} (f : Server → Server) (s : Server)
    → Q tt (f s)
    → Yields (modify f) s Q
unfolding modify
Yields-modify f s q = record { outcome = q }

-- A write to a channel
pub Yields-modify_channel :
    {Q : Unit {0} → Server → Type 0} (name : Text) (f : Channel → Channel) (s : Server)
    → ((c : Channel) → find name s.channel_list ≡ some c → Q tt (put_channel name f s))
    → Yields (modify_channel name f) s Q
unfolding modify_channel find_channel ◌>>=◌
Yields-modify_channel name f s k = elim (Option-cases (find name s.channel_list)) [
  | inl absent ↦ record { outcome = rw absent tt }
  | inr (c, there) ↦ record { outcome = rw there (k c there) }
]
