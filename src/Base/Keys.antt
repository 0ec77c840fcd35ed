-- ===== src/Base/Keys.antt =====
-- The keys of a map: how often each occurs, and the effect of the writes on them
use Prim.Native.Nat.{suc, ◌≤◌}
use mathlib.Core.Path.{◌≡◌, refl, ap}
use mathlib.Core.Logic.{inl, inr}
use mathlib.Core.List.{List, [], ◌∷◌}
use mathlib.Core.Option.{none, some}
use native.Mathlib.Omega.{arith}
use irc_protocol_server.Base.Tests.{Key, ◌==◌, if◌then◌else◌, Option-cases}
use irc_protocol_server.Base.Lists.{count}
use irc_protocol_server.Base.Maps.{Map, find, place, insert, erase_key, update}

module _ {ℓ κ} {K : Type ℓ} {V : Type κ} ⦃o : Key K⦄ where
  abbrev pub keys : Map K V → List K
  keys [] = []
  keys ((k, v) ∷ m) = k ∷ keys m

  -- No key occurs twice.
  abbrev pub Distinct : Map K V → Type ℓ
  Distinct m = (k : K) → count k (keys m) ≤ 1

  pub keys-update : (k : K) (f : V → V) (m : Map K V) → keys (update k f m) ≡ keys m
  unfolding update
  keys-update k f [] = refl
  keys-update k f ((j, v) ∷ m) = ap (λ ks. j ∷ ks) (keys-update k f m)

  count-keys-place :
      (j k : K) (v : V) (m : Map K V)
      → count j (keys (place k v m)) ≡ (if k == j then suc (count j (keys m)) else count j (keys m))
  unfolding count place
  count-keys-place j k v [] = refl
  count-keys-place j k v ((i, w) ∷ m) = ground (arith, count-keys-place j k v m)

  pub count-keys-erase :
      (j k : K) (m : Map K V)
      → count j (keys (erase_key k m)) ≡ (if k == j then 0 else count j (keys m))
  unfolding count erase_key
  count-keys-erase j k [] = ground arith
  count-keys-erase j k ((i, w) ∷ m) =
      ground (arith, count-keys-erase j k m, o.beq_iff k j, o.beq_iff i j, o.beq_iff i k)

  pub count-keys-none : (k : K) (m : Map K V) → find k m ≡ none → count k (keys m) ≡ 0
  unfolding count find
  count-keys-none k [] e = refl
  count-keys-none k ((j, v) ∷ m) e = ground (arith, count-keys-none k m)

  pub count-keys-some : (k : K) (v : V) (m : Map K V) → find k m ≡ some v → 1 ≤ count k (keys m)
  unfolding count find
  count-keys-some k v [] e = ground arith
  count-keys-some k v ((j, w) ∷ m) e = ground (arith, count-keys-some k v m)

  pub tail-Distinct : (k : K) (v : V) (m : Map K V) → Distinct ((k, v) ∷ m) → Distinct m
  unfolding count
  tail-Distinct k v m once j = ground (arith, once j)

  insert_absent : (k : K) (v : V) (m : Map K V) → find k m ≡ none → insert k v m ≡ place k v m
  unfolding insert
  insert_absent k v m absent = rw (absent, insert) refl

  -- A key that is there keeps its value.
  pub insert_present : (k : K) (v w : V) (m : Map K V) → find k m ≡ some w → insert k v m ≡ m
  unfolding insert
  insert_present k v w m here = rw (here, insert) refl

  pub insert-Distinct : (k : K) (v : V) (m : Map K V) → Distinct m → Distinct (insert k v m)
  insert-Distinct k v m once j = elim (Option-cases (find k m)) [
    | inl absent ↦ rw (insert_absent k v m absent) (
        ground (arith, count-keys-place j k v m, count-keys-none k m absent, o.beq_iff k j, once j))
    | inr (w, here) ↦ rw (insert_present k v w m here) (once j)
  ]

  pub erase_key-Distinct : (k : K) (m : Map K V) → Distinct m → Distinct (erase_key k m)
  erase_key-Distinct k m once j = ground (arith, count-keys-erase j k m, once j)

  -- A value that goes may be written to first.
  pub erase_key-update :
      (k : K) (f : V → V) (m : Map K V) → erase_key k (update k f m) ≡ erase_key k m
  unfolding erase_key update
  erase_key-update k f [] = refl
  erase_key-update k f ((j, v) ∷ m) = ground (arith, erase_key-update k f m)
