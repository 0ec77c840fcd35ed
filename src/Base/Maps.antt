-- ===== src/Base/Maps.antt =====
-- `std::map`: an association list in the order of the keys.
use mathlib.Core.Path.{◌≡◌, refl}
use mathlib.Core.List.{List, [], ◌∷◌}
use mathlib.Core.Logic.{inl, inr}
use mathlib.Core.Option
use mathlib.Core.Option.{Option, none, some}
use native.Mathlib.Omega.{arith}
use irc_protocol_server.Base.Tests.{Bool-cases, Key, ◌==◌, if◌then◌else◌}

abbrev pub Map {ℓ κ} : Type ℓ → Type κ → Type (ℓ ⊔ κ)
Map K V = List (K × V)

module _ {ℓ κ} {K : Type ℓ} {V : Type κ} ⦃o : Key K⦄ where
  unfoldable pub find : K → Map K V → Option V
  find k [] = none
  find k ((j, v) ∷ m) = if j == k then some v else find k m

  -- A new key goes before the first greater one.
  unfoldable pub place : K → V → Map K V → Map K V
  place k v [] = (k, v) ∷ []
  place k v ((j, w) ∷ m) = if o.less k j then (k, v) ∷ (j, w) ∷ m else (j, w) ∷ place k v m

  -- `insert`: a key that is there keeps its value.
  unfoldable pub insert : K → V → Map K V → Map K V
  unfolding place
  insert k v m = elim (find k m) [ none ↦ place k v m | some _ ↦ m ]

  unfoldable pub erase_key : K → Map K V → Map K V
  erase_key k [] = []
  erase_key k ((j, v) ∷ m) = let rest = erase_key k m in if j == k then rest else (j, v) ∷ rest

  -- A write through the iterator or the reference that a lookup gave.
  unfoldable pub update : K → (V → V) → Map K V → Map K V
  update k f [] = []
  update k f ((j, v) ∷ m) = (j, if j == k then f v else v) ∷ update k f m

  pub find-place :
      (j k : K) (v : V) (m : Map K V)
      → find k m ≡ none
      → find j (place k v m) ≡ (if k == j then some v else find j m)
  unfolding find place
  find-place j k v [] h = refl
  find-place j k v ((i, w) ∷ m) h =
      ground (arith, find-place j k v m, o.beq_iff k j, o.beq_iff i j, o.beq_iff i k)

  pub find-insert :
      (j k : K) (v : V) (m : Map K V)
      → find k m ≡ none
      → find j (insert k v m) ≡ (if k == j then some v else find j m)
  unfolding insert
  find-insert j k v m h = rw (h, insert) (find-place j k v m h)

  pub find-erase_key :
      (j k : K) (m : Map K V) → find j (erase_key k m) ≡ (if k == j then none else find j m)
  unfolding find erase_key
  find-erase_key j k [] = ground arith
  find-erase_key j k ((i, w) ∷ m) =
      ground (arith, find-erase_key j k m, o.beq_iff k j, o.beq_iff i j, o.beq_iff i k)

  pub update-update :
      (k : K) (f g : V → V) (m : Map K V) → update k g (update k f m) ≡ update k (λ v. g (f v)) m
  unfolding update
  update-update k f g [] = refl
  update-update k f g ((j, v) ∷ m) = elim (Bool-cases (j == k)) [
    | inl same ↦ rw (same, update-update k f g m) refl
    | inr other ↦ rw (other, update-update k f g m) refl
  ]

  pub find-update :
      (j k : K) (f : V → V) (m : Map K V)
      → find j (update k f m) ≡ (if k == j then Option.map f (find j m) else find j m)
  unfolding find update
  find-update j k f [] = ground arith
  find-update j k f ((i, w) ∷ m) =
      ground (arith, find-update j k f m, o.beq_iff k j, o.beq_iff i j, o.beq_iff i k)
