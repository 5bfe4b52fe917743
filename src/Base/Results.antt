-- ===== src/Base/Results.antt =====
-- Code that throws, and transactions: a call on a database state gives a value and the next state,
-- or throws, and then the transaction is rolled back.
use mathlib.Core.Path.{◌≡◌, refl}
use mathlib.Core.Bool.{Bool, true, false}
use mathlib.Core.Option.{Option, none, some}

pub data Result (E A : Type 0) : Type 0 where
  ok : A → Result E A
  err : E → Result E A

-- The body of a `db.transaction`: state in, value and state out, or an exception.
abbrev pub Tx : Type 0 → Type 0 → Type 0 → Type 0
Tx S E A = S → Result E (A × S)

infixl 5 ◌>>=◌ ◌>>◌
abbrev pub ◌>>=◌ : {S E A B : Type 0} → Tx S E A → (A → Tx S E B) → Tx S E B
◌>>=◌ m f s = elim (m s) [ ok (a, s') ↦ f a s' | err e ↦ err e ]

abbrev pub ◌>>◌ : {S E A B : Type 0} → Tx S E A → Tx S E B → Tx S E B
m >> k = m >>= λ _. k

module _ {S E : Type 0} where
  abbrev pub pure : {A : Type 0} → A → Tx S E A
  pure a s = ok (a, s)

  abbrev pub throw : {A : Type 0} → E → Tx S E A
  throw e s = err e

  abbrev pub gets : {A : Type 0} → (S → A) → Tx S E A
  gets f s = ok (f s, s)

  abbrev pub modify : (S → S) → Tx S E (Unit {0})
  modify f s = ok (tt, f s)

  -- `if (!condition) throw e`
  abbrev pub ensure : Bool → E → Tx S E (Unit {0})
  ensure true e s = ok (tt, s)
  ensure false e s = err e

  -- `if (!row) throw e`
  abbrev pub found : {A : Type 0} → Option A → E → Tx S E A
  found none e s = err e
  found (some a) e s = ok (a, s)

-- Running a transaction against the committed state: an exception leaves it as it was.
abbrev pub committed : {S E A : Type 0} → S → Result E (A × S) → S
committed s (ok (_, s')) = s'
committed s (err _) = s

-- Inversion of a successful step followed by the rest.
pub >>=-eq-ok :
    {S E A B : Type 0} (m : Tx S E A) (f : A → Tx S E B) (s : S) {b : B} {s'' : S}
    → (m >>= f) s ≡ ok (b, s'')
    → (a : A) × (s' : S) × (m s ≡ ok (a, s')) × (f a s' ≡ ok (b, s''))
>>=-eq-ok {S} {E} {A} {B} m f s {b} {s''} h = go (m s) refl h
  where
    go :
        (r : Result E (A × S))
        → m s ≡ r
        → (let k : Result E (A × S) → Result E (B × S) = elim [
          | ok (a, s') ↦ f a s'
          | err e ↦ err e
        ] in
            k r)
          ≡ ok (b, s'')
        → (a : A) × (s' : S) × (m s ≡ ok (a, s')) × (f a s' ≡ ok (b, s''))
    go (ok (a, s')) e q = (a, s', e, q)
    go (err x) e q = cc

-- Inversion of a guard, or of a lookup, followed by the rest.
pub ensure_passed :
    {S E B : Type 0} (b : Bool) (e : E) (k : Unit {0} → Tx S E B) (s : S) {r : B × S}
    → (ensure b e >>= k) s ≡ ok r
    → (b ≡ true) × (k tt s ≡ ok r)
ensure_passed true e k s h = (refl, h)
ensure_passed false e k s h = cc

pub found_passed :
    {S E A B : Type 0} (o : Option A) (e : E) (k : A → Tx S E B) (s : S) {r : B × S}
    → (found o e >>= k) s ≡ ok r
    → (a : A) × (o ≡ some a) × (k a s ≡ ok r)
found_passed none e k s h = cc
found_passed (some a) e k s h = (a, refl, h)

-- A step that succeeds hands its value and state to the rest.
pub >>=-ok :
    {S E A B : Type 0} (m : Tx S E A) (f : A → Tx S E B) (s : S) {a : A} {s' : S}
    → m s ≡ ok (a, s')
    → (m >>= f) s ≡ f a s'
>>=-ok m f s h = rw (h, ◌>>=◌) refl

pub ensure-ok :
    {S E B : Type 0} (b : Bool) (e : E) (k : Unit {0} → Tx S E B) (s : S)
    → b ≡ true
    → (ensure b e >>= k) s ≡ k tt s
ensure-ok b e k s h = rw h refl

pub ok-injective : {E A : Type 0} {a b : A} → (e : Result E A) → e ≡ ok a → e ≡ ok b → a ≡ b
ok-injective e h k = cc
