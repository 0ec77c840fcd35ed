-- ===== src/Base/Lists.antt =====
-- `std::vector`: lengths and indices over the native numbers, and the calls of `std::find`.
use Prim.Native.Nat.{ℕ, zero, suc, ◌+◌, ◌-◌, ◌<◌}
use mathlib.Core.Path.{◌≡◌, refl}
use mathlib.Core.Bool.{Bool, true, false, ◌||◌}
use mathlib.Core.List.{List, [], ◌∷◌, ◌++◌}
use mathlib.Core.Option.{Option, none, some}
use native.Mathlib.Omega.{arith}
use irc_protocol_server.Base.Tests.{Key, ◌==◌, if◌then◌else◌}

module _ {ℓ} {A : Type ℓ} where
  abbrev pub length : List A → ℕ
  length [] = 0
  length (x ∷ xs) = suc (length xs)

  abbrev pub get_elem? : List A → ℕ → Option A
  get_elem? [] i = none
  get_elem? (x ∷ xs) zero = some x
  get_elem? (x ∷ xs) (suc i) = get_elem? xs i

  abbrev pub take : ℕ → List A → List A
  take zero xs = []
  take (suc n) [] = []
  take (suc n) (x ∷ xs) = x ∷ take n xs

  abbrev pub drop : ℕ → List A → List A
  drop zero xs = xs
  drop (suc n) [] = []
  drop (suc n) (x ∷ xs) = drop n xs

  pub length-append : (xs ys : List A) → length (xs ++ ys) ≡ length xs + length ys
  length-append [] ys = omega arith
  length-append (x ∷ xs) ys = omega (arith, length-append xs ys)

  -- `push_back`
  abbrev pub push_back : List A → A → List A
  push_back xs x = xs ++ (x ∷ [])

module _ {ℓ} {A : Type ℓ} ⦃k : Key A⦄ where
  -- `std::find(…) != end()`
  unfoldable pub contains : A → List A → Bool
  contains a [] = false
  contains a (x ∷ xs) = x == a || contains a xs

  unfoldable pub count : A → List A → ℕ
  count a [] = 0
  count a (x ∷ xs) = if x == a then suc (count a xs) else count a xs

  -- `erase(std::find(…))`: the first occurrence goes.
  unfoldable pub erase : A → List A → List A
  erase a [] = []
  erase a (x ∷ xs) = if x == a then xs else x ∷ erase a xs

  -- `push_back` where `std::find` finds nothing
  unfoldable pub push_new : A → List A → List A
  push_new a xs = if contains a xs then xs else push_back xs a

  pub contains-count : (a : A) (xs : List A) → contains a xs ≡ true → 0 < count a xs
  unfolding contains count
  contains-count a [] h = ground arith
  contains-count a (x ∷ xs) h = ground (arith, contains-count a xs)

  pub count-contains : (a : A) (xs : List A) → contains a xs ≡ false → count a xs ≡ 0
  unfolding contains count
  count-contains a [] h = refl
  count-contains a (x ∷ xs) h = ground (arith, count-contains a xs)

  pub count-push_back :
      (a b : A) (xs : List A)
      → count a (push_back xs b) ≡ (if b == a then count a xs + 1 else count a xs)
  unfolding count
  count-push_back a b [] = ground arith
  count-push_back a b (x ∷ xs) = ground (arith, count-push_back a b xs)

  pub count-erase :
      (a b : A) (xs : List A)
      → count a (erase b xs) ≡ (if b == a then count a xs - 1 else count a xs)
  unfolding count erase
  count-erase a b [] = ground arith
  count-erase a b (x ∷ xs) =
      ground (arith, k.beq_iff x b, k.beq_iff x a, k.beq_iff b a, count-erase a b xs)

  pub contains-push_back :
      (a b : A) (xs : List A) → contains a (push_back xs b) ≡ (contains a xs || b == a)
  unfolding contains
  contains-push_back a b [] = ground arith
  contains-push_back a b (x ∷ xs) = ground (arith, contains-push_back a b xs)
