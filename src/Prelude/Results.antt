-- ===== src/Prelude/Results.antt =====
-- Go's `error` values, and a value or an error.
use Prim.Native.String.{String, ◌++◌}
use mathlib.Core.Path.{◌≡◌, refl}
use mathlib.Core.Bool.{Bool, true, false}
use mathlib.Core.Option.{Option, none, some}

-- `message` is `errors.New` or a `fmt.Errorf` with no `%w`; `wrapped` is `fmt.Errorf` with a text
-- in front of `%w`; `system` is an error of the operating system, and `not_exist` one for which
-- `os.IsNotExist` holds.
pub data Error : Type 0 where
  message : String → Error
  wrapped : String → Error → Error
  system : String → Error
  not_exist : String → Error

-- `err.Error()`
abbrev pub error_text : Error → String
error_text (message s) = s
error_text (wrapped s e) = s ++ (": " ++ error_text e)
error_text (system s) = s
error_text (not_exist s) = s

-- `os.IsNotExist`, which does not look into wrapped errors
abbrev pub is_not_exist : Error → Bool
is_not_exist (not_exist s) = true
is_not_exist _ = false

pub data Result {ℓ} (A : Type ℓ) : Type ℓ where
  err : Error → Result A
  ok : A → Result A

infixl 5 ◌>>=◌ ◌>>◌
abbrev pub ◌>>=◌ {ℓ κ} : {A : Type ℓ} {B : Type κ} → Result A → (A → Result B) → Result B
err e >>= next = err e
ok value >>= next = next value

abbrev pub ◌>>◌ {ℓ} : {B : Type ℓ} → Result (Unit {0}) → Result B → Result B
first >> second = first >>= λ done. second

-- `if b { return errors.New(s) }`
abbrev pub reject_if : Bool → String → Result (Unit {0})
reject_if true s = err (message s)
reject_if false s = ok tt

abbrev pub is_ok {ℓ} : {A : Type ℓ} → Result A → Bool
is_ok (ok a) = true
is_ok (err e) = false

-- A result from an `Option`, with the error for `none`.
abbrev pub or_err {ℓ} : {A : Type ℓ} → Option A → Error → Result A
or_err none e = err e
or_err (some a) e = ok a

-- The value, unless the check on it fails.
unfoldable pub checked {ℓ} : {A : Type ℓ} → (A → Result (Unit {0})) → Result A → Result A
checked f (ok a) = f a >> ok a
checked f (err e) = err e

pub checked-eq-ok {ℓ} :
    {A : Type ℓ} (f : A → Result (Unit {0})) (r : Result A) (a : A)
    → r ≡ ok a
    → f a ≡ ok tt
    → checked f r ≡ ok a
unfolding checked
checked-eq-ok f r a e h = rw (e, h) refl

-- Inversion of a chain that succeeds.
pub >>=-eq-ok {ℓ κ} :
    {A : Type ℓ} {B : Type κ} (r : Result A) (next : A → Result B) {b : B}
    → (r >>= next) ≡ ok b
    → (value : A) × (r ≡ ok value) × (next value ≡ ok b)
>>=-eq-ok (err e) next h = cc
>>=-eq-ok (ok value) next h = (value, refl, h)

pub reject_if-eq-ok : (b : Bool) (s : String) {u : Unit {0}} → reject_if b s ≡ ok u → b ≡ false
reject_if-eq-ok true s h = cc
reject_if-eq-ok false s h = refl

-- Both parts of a chain of tests that succeeds.
pub >>-eq-ok : (m k : Result (Unit {0})) → (m >> k) ≡ ok tt → (m ≡ ok tt) × (k ≡ ok tt)
>>-eq-ok (ok tt) k h = (refl, h)
>>-eq-ok (err e) k h = cc

pub reject_if->>-eq-ok :
    (b : Bool) (s : String) (k : Result (Unit {0}))
    → (reject_if b s >> k) ≡ ok tt
    → (b ≡ false) × (k ≡ ok tt)
reject_if->>-eq-ok true s k h = cc
reject_if->>-eq-ok false s k h = (refl, h)
