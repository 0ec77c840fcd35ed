-- ===== src/Server/Ensures.antt =====
-- Total correctness of actions: the rules for the ways to build one.
use irc_protocol_server.Base.{◌≡◌, refl, Bool, true, false, List, [], ◌∷◌}
use irc_protocol_server.Server.State.{
  Server, Outcome, ok, M, pure, follow, when◌act◌otherwise◌, ◌>>=◌, gets, modify, for_each,
}

pub data Returns {A : Type 0} (Q : A → Server → Type 0) : Outcome A → Type 0 where
  returns : {a : A} {s : Server} → Q a s → Returns Q (ok a s)

-- From `s` the action returns, with no undefined behaviour, no exception and no endless loop, and `Q`
-- holds of the result and of the state that it leaves.
pub record Ensures {A : Type 0} (m : M A) (s : Server) (Q : A → Server → Type 0) : Type 0 where
  pub outcome : Returns Q (m s)

pub Returns-follow :
    {A B : Type 0} {Q : A → Server → Type 0} {R : B → Server → Type 0} {o : Outcome A} {f : A → M B}
    → Returns Q o
    → ((a : A) (s : Server) → Q a s → Ensures (f a) s R)
    → Returns R (follow o f)
Returns-follow (returns {a = a} {s = s} q) h = (h a s q).outcome

Returns-mono :
    {A : Type 0} {Q R : A → Server → Type 0} {o : Outcome A}
    → Returns Q o
    → ((a : A) (s : Server) → Q a s → R a s)
    → Returns R o
Returns-mono (returns {a = a} {s = s} q) h = returns (h a s q)

Returns-both :
    {A : Type 0} {Q R : A → Server → Type 0} {o : Outcome A}
    → Returns Q o
    → Returns R o
    → Returns (λ a s. Q a s × R a s) o
Returns-both {Q = Q} {R = R} (returns {a = a} {s = s} q) h = both h
  where
    both : Returns R (ok a s) → Returns (λ a s. Q a s × R a s) (ok a s)
    both (returns r) = returns (q, r)

module _ {A : Type 0} {Q : A → Server → Type 0} where
  pub Ensures-bind :
      {B : Type 0} {R : B → Server → Type 0} (m : M A) (f : A → M B) (s : Server)
      → Ensures m s Q
      → ((a : A) (t : Server) → Q a t → Ensures (f a) t R)
      → Ensures (m >>= f) s R
  unfolding ◌>>=◌
  Ensures-bind m f s h k = record { outcome = Returns-follow h.outcome k }

  pub Ensures-mono :
      {R : A → Server → Type 0} {m : M A} {s : Server}
      → Ensures m s Q
      → ((a : A) (t : Server) → Q a t → R a t)
      → Ensures m s R
  Ensures-mono h k = record { outcome = Returns-mono h.outcome k }

  -- What two proofs say of the one result
  pub Ensures-both :
      {R : A → Server → Type 0} {m : M A} {s : Server}
      → Ensures m s Q
      → Ensures m s R
      → Ensures m s (λ a t. Q a t × R a t)
  Ensures-both h k = record { outcome = Returns-both h.outcome k.outcome }

  pub Ensures-pure : (a : A) (s : Server) → Q a s → Ensures (pure a) s Q
  unfolding pure
  Ensures-pure a s q = record { outcome = returns q }

  pub Ensures-gets : (f : Server → A) (s : Server) → Q (f s) s → Ensures (gets f) s Q
  unfolding gets
  Ensures-gets f s q = record { outcome = returns q }

  pub Ensures-when :
      (b : Bool) (m n : M A) (s : Server)
      → (b ≡ true → Ensures m s Q)
      → (b ≡ false → Ensures n s Q)
      → Ensures (when b act m otherwise n) s Q
  unfolding when◌act◌otherwise◌
  Ensures-when true m n s km kn = km refl
  Ensures-when false m n s km kn = kn refl

pub Ensures-modify :
    {Q : Unit {0} → Server → Type 0} (f : Server → Server) (s : Server)
    → Q tt (f s)
    → Ensures (modify f) s Q
unfolding modify
Ensures-modify f s q = record { outcome = returns q }

-- A loop keeps what each of its rounds keeps.
pub Ensures-for_each :
    {A : Type 0} {P : Server → Type 0} {body : A → M (Unit {0})}
    → ((a : A) (s : Server) → P s → Ensures (body a) s (λ _. P))
    → (as' : List A) {s : Server} → P s
    → Ensures (for_each as' body) s (λ _. P)
unfolding for_each
Ensures-for_each keep [] {s} p = Ensures-pure tt s p
Ensures-for_each {body = body} keep (a ∷ rest) {s} p =
    Ensures-bind (body a) _ s (keep a s p) λ _ t p'. Ensures-for_each keep rest p'
