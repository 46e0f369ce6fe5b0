-- ===== src/Prelude/Result.antt =====
-- A call that may throw: its value, or the message of the `Error`.
use Prim.Native.String.{String}
use mathlib.Core.Path.{◌≡◌, refl}

pub data Result {ℓ} (A : Type ℓ) : Type ℓ where
  ok : A → Result A
  throws : String → Result A

infixl 5 ◌>>=◌
abbrev pub ◌>>=◌ {ℓ κ} : {A : Type ℓ} {B : Type κ} → Result A → (A → Result B) → Result B
ok a >>= k = k a
throws message >>= k = throws message

-- The state after a call that may throw before it has changed anything.
abbrev pub ok_or {ℓ} : {A : Type ℓ} → A → Result A → A
ok_or s (ok a) = a
ok_or s (throws message) = s

-- A chain that returns has a first step that returns, and a rest that returns from its value.
pub >>=-ok {ℓ κ} :
    {A : Type ℓ} {B : Type κ} {b : B} (m : Result A) (k : A → Result B)
    → (m >>= k) ≡ ok b
    → (a : A) × ((m ≡ ok a) × (k a ≡ ok b))
>>=-ok (throws message) k e = cc
>>=-ok (ok a) k e = (a, (refl, e))

-- What holds of the value, if there is one.
abbrev pub Holds {ℓ κ} : {A : Type ℓ} → (A → Type κ) → Result A → Type κ
Holds P (ok a) = P a
Holds P (throws message) = Unit

pub Holds->>= {ℓ κ μ ν} :
    {A : Type ℓ} {B : Type κ} (P : A → Type μ) (Q : B → Type ν) (m : Result A) (k : A → Result B)
    → Holds P m
    → ((a : A) → P a → Holds Q (k a))
    → Holds Q (m >>= k)
Holds->>= P Q (ok a) k h f = f a h
Holds->>= P Q (throws message) k h f = tt

pub ok_or-Holds {ℓ κ} :
    {A : Type ℓ} (P : A → Type κ) (a : A) (m : Result A) → P a → Holds P m → P (ok_or a m)
ok_or-Holds P a (ok b) h k = k
ok_or-Holds P a (throws message) h k = h
