-- ===== src/Base/Lists.antt =====
-- Lists measured by native numbers, searched and updated the way JavaScript's array methods do.
use Prim.Native.Nat.{ℕ, zero, suc, ◌+◌, ◌≤◌}
use mathlib.Core.Path.{◌≡◌, refl, ap}
use mathlib.Core.Logic.{inl, inr}
use mathlib.Core.Bool.{Bool, true, false, ◌&&◌, ◌||◌}
use mathlib.Core.Option.{Option, none, some}
use mathlib.Core.List.{List, [], ◌∷◌, ◌++◌, map, reverse, reverse-cons}
use native.Mathlib.Omega.{arith}
use pane_fleet.Base.Tests.{if◌then◌else◌, Bool-cases}

module _ {ℓ} {A : Type ℓ} where
  abbrev pub length : List A → ℕ
  length [] = 0
  length (x ∷ xs) = suc (length xs)

  abbrev pub take : ℕ → List A → List A
  take zero xs = []
  take (suc n) [] = []
  take (suc n) (x ∷ xs) = x ∷ take n xs

  abbrev pub drop : ℕ → List A → List A
  drop zero xs = xs
  drop (suc n) [] = []
  drop (suc n) (x ∷ xs) = drop n xs

  abbrev pub get_elem? : List A → ℕ → Option A
  get_elem? [] i = none
  get_elem? (x ∷ xs) zero = some x
  get_elem? (x ∷ xs) (suc i) = get_elem? xs i

  -- array.every, array.some, array.find, array.filter
  abbrev pub every : (A → Bool) → List A → Bool
  every f [] = true
  every f (x ∷ xs) = f x && every f xs

  abbrev pub some_of : (A → Bool) → List A → Bool
  some_of f [] = false
  some_of f (x ∷ xs) = f x || some_of f xs

  abbrev pub find : (A → Bool) → List A → Option A
  find f [] = none
  find f (x ∷ xs) = if f x then some x else find f xs

  abbrev pub filter : (A → Bool) → List A → List A
  filter f [] = []
  filter f (x ∷ xs) = let rest = filter f xs in if f x then x ∷ rest else rest

  -- A write to the first element that `find` would return.
  abbrev pub modify : (A → Bool) → (A → A) → List A → List A
  modify f g [] = []
  modify f g (x ∷ xs) = if f x then g x ∷ xs else x ∷ modify f g xs

  pub length-append : (xs ys : List A) → length (xs ++ ys) ≡ length xs + length ys
  length-append [] ys = omega arith
  length-append (x ∷ xs) ys = omega (arith, length-append xs ys)

  pub length-modify : (f : A → Bool) (g : A → A) (xs : List A) → length (modify f g xs) ≡ length xs
  length-modify f g [] = refl
  length-modify f g (x ∷ xs) = ground (arith, length-modify f g xs)

  pub length-filter-le : (f : A → Bool) (xs : List A) → length (filter f xs) ≤ length xs
  length-filter-le f [] = omega arith
  length-filter-le f (x ∷ xs) = ground (arith, length-filter-le f xs)

-- A predicate on every element; it computes to tuples.
abbrev pub All {ℓ κ} : {A : Type ℓ} → (A → Type κ) → List A → Type κ
All P [] = Unit
All P (x ∷ xs) = P x × All P xs

-- What keeps a predicate on every element.
module _ {ℓ κ} {A : Type ℓ} (P : A → Type κ) where
  pub All-filter :
      (f : A → Bool) → ((x : A) → f x ≡ true → P x) → (xs : List A) → All P (filter f xs)
  All-filter f holds [] = tt
  All-filter f holds (x ∷ xs) = elim (Bool-cases (f x)) [
    | inl e ↦ rw (e) (holds x e, All-filter f holds xs)
    | inr e ↦ rw (e) (All-filter f holds xs)
  ]

  pub All-take : (n : ℕ) (xs : List A) → All P xs → All P (take n xs)
  All-take zero xs a = tt
  All-take (suc n) [] a = tt
  All-take (suc n) (x ∷ xs) (p, a) = (p, All-take n xs a)

  pub All-append : (xs ys : List A) → All P xs → All P ys → All P (xs ++ ys)
  All-append [] ys a b = b
  All-append (x ∷ xs) ys (p, a) b = (p, All-append xs ys a b)

  pub All-reverse : (xs : List A) → All P xs → All P (reverse xs)
  All-reverse [] a = tt
  All-reverse (x ∷ xs) (p, a) =
      rw (reverse-cons x xs) (All-append (reverse xs) (x ∷ []) (All-reverse xs a) (p, tt))

pub length-reverse {ℓ} : {A : Type ℓ} (xs : List A) → length (reverse xs) ≡ length xs
length-reverse [] = refl
length-reverse (x ∷ xs) =
    rw (reverse-cons x xs, length-append (reverse xs) (x ∷ []), length-reverse xs) (omega arith)

pub length-take-le {ℓ} : {A : Type ℓ} (n : ℕ) (xs : List A) → length (take n xs) ≤ n
length-take-le zero xs = omega arith
length-take-le (suc n) [] = omega arith
length-take-le (suc n) (x ∷ xs) = omega (arith, length-take-le n xs)

pub length-map {ℓ κ} :
    {A : Type ℓ} {B : Type κ} (f : A → B) (xs : List A) → length (map f xs) ≡ length xs
length-map f [] = refl
length-map f (x ∷ xs) = ap suc (length-map f xs)
