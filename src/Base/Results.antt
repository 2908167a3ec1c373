-- ===== src/Base/Results.antt =====
-- Exceptions as values. The errors of a component are a type of its own.
use mathlib.Core.Path.{◌≡◌, refl}
use mathlib.Core.Bool.{Bool, true, false}
use mathlib.Core.Option.{Option, none, some}
use mathlib.Core.List.{List, [], ◌∷◌}

pub data Result {ℓ} (E : Type ℓ) (A : Type ℓ) : Type ℓ where
  ok : A → Result E A
  err : E → Result E A

infixl 5 ◌>>=◌ ◌>>◌
abbrev pub ◌>>=◌ {ℓ} : {E A B : Type ℓ} → Result E A → (A → Result E B) → Result E B
err error >>= next = err error
ok value >>= next = next value

abbrev pub ◌>>◌ {ℓ} : {E B : Type ℓ} → Result E (Unit {ℓ}) → Result E B → Result E B
check >> rest = check >>= λ _. rest

-- if (!test) throw error
abbrev pub guard {ℓ} : {E : Type ℓ} → Bool → E → Result E (Unit {ℓ})
guard false error = err error
guard true error = ok tt

abbrev pub or_throw {ℓ} : {E A : Type ℓ} → Option A → E → Result E A
or_throw none e = err e
or_throw (some a) e = ok a

-- for (const value of values) check(value)
abbrev pub for_each {ℓ} : {E A : Type ℓ} → (A → Result E (Unit {ℓ})) → List A → Result E (Unit {ℓ})
for_each f [] = ok tt
for_each f (x ∷ xs) = let rest = for_each f xs in f x >> rest

-- values.map(f), where f may throw
abbrev pub map_m {ℓ} : {E A B : Type ℓ} → (A → Result E B) → List A → Result E (List B)
map_m f [] = ok []
map_m f (x ∷ xs) = let rest = map_m f xs in f x >>= λ y. rest >>= λ ys. ok (y ∷ ys)

-- Inversion of a successful chain.
pub >>=-eq-ok {ℓ} :
    {E A B : Type ℓ} (attempt : Result E A) (next : A → Result E B) {result : B}
    → (attempt >>= next) ≡ ok result
    → (value : A) × (attempt ≡ ok value) × (next value ≡ ok result)
>>=-eq-ok (err error) next done = cc
>>=-eq-ok (ok value) next done = (value, refl, done)

pub >>-eq-ok {ℓ} :
    {E B : Type ℓ} (m : Result E (Unit {ℓ})) (k : Result E B) {b : B}
    → (m >> k) ≡ ok b
    → (m ≡ ok tt) × (k ≡ ok b)
>>-eq-ok (ok tt) k h = (refl, h)
>>-eq-ok (err e) k h = cc

pub guard-eq-ok {ℓ} : {E : Type ℓ} (b : Bool) (e : E) → guard b e ≡ ok tt → b ≡ true
guard-eq-ok true e h = refl
guard-eq-ok false e h = cc

pub guard->>-eq-ok {ℓ} :
    {E B : Type ℓ} (t : Bool) (e : E) (k : Result E B) {b : B}
    → (guard t e >> k) ≡ ok b
    → (t ≡ true) × (k ≡ ok b)
guard->>-eq-ok true e k h = (refl, h)
guard->>-eq-ok false e k h = cc

-- The same by continuation, which keeps the intermediate values as variables.
pub >>=-ok_cases {ℓ κ} :
    {E A B : Type ℓ} {P : Type κ} (m : Result E A) (f : A → Result E B) {b : B}
    → (m >>= f) ≡ ok b
    → ((a : A) → m ≡ ok a → f a ≡ ok b → P)
    → P
>>=-ok_cases (ok a) f h k = k a refl h
>>=-ok_cases (err e) f h k = absurd (cc)
