-- ===== src/System/Actions.antt =====
-- Actions: functions of the environment and of what has happened, which return a value or an error.
use mathlib.Core.List.{[], ◌∷◌}
use hamara_tunnel.Prelude.{String, Bool, true, false, none, some, Result, ok, err, Error, List}
use hamara_tunnel.System.Requests.{Op, Reply, Trace, Env, print}

abbrev pub Action : Type 0 → Type 0
Action A = Env → Trace → Result A × Trace

module _ {A : Type 0} where
  unfoldable pub pure : A → Action A
  pure a env t = (ok a, t)

  -- A value or an error that needs no effect.
  unfoldable pub lift : Result A → Action A
  lift r env t = (r, t)

  unfoldable pub fail : Error → Action A
  fail e env t = (err e, t)

  -- The result as a value, so that an error does not end the action.
  unfoldable pub attempt : Action A → Action (Result A)
  attempt m env t = let (r, t') = m env t in (ok r, t')

  -- `_ = m`
  unfoldable pub ignore : Action A → Action (Unit {0})
  ignore m env t = let (r, t') = m env t in (ok tt, t')

module _ {A B : Type 0} where
  unfoldable pub continue : Result A → (A → Action B) → Action B
  continue (ok a) f env t = f a env t
  continue (err e) f env t = (err e, t)

  infixl 5 ◌>>=◌
  unfoldable pub ◌>>=◌ : Action A → (A → Action B) → Action B
  unfolding continue
  ◌>>=◌ m f env t = let (r, t') = m env t in continue r f env t'

infixl 5 ◌>>◌
abbrev pub ◌>>◌ : {B : Type 0} → Action (Unit {0}) → Action B → Action B
m >> n = m >>= λ _. n

-- A request and its answer.
unfoldable pub perform : Op → Action Reply
perform op env t = let r = env t op in (ok r, record { op = op; reply = r } ∷ t)

unfoldable pub text_of : Reply → Result String
text_of r = elim r.error [ none ↦ ok r.text | some e ↦ err e ]

unfoldable pub done : Reply → Result (Unit {0})
done r = elim r.error [ none ↦ ok tt | some e ↦ err e ]

-- A request that may fail, and the text that it returns.
unfoldable pub ask : Op → Action String
ask op = do r ← perform op; lift (text_of r)

-- A request that may fail, and returns nothing.
unfoldable pub call : Op → Action (Unit {0})
call op = do r ← perform op; lift (done r)

-- `fmt.Fprint(a.Out, s)`
unfoldable pub say : String → Action (Unit {0})
say s = ignore (perform (print s))

abbrev pub skip : Action (Unit {0})
skip = pure tt

-- `if b { return e }`
unfoldable pub refuse_if : Bool → Error → Action (Unit {0})
refuse_if true e = fail e
refuse_if false e = pure tt

-- `if b { … }`
unfoldable pub do_if : Bool → Action (Unit {0}) → Action (Unit {0})
do_if true m = m
do_if false m = pure tt

-- A loop over a list that stops at the first error.
unfoldable pub for_each {ℓ} : {A : Type ℓ} → List A → (A → Action (Unit {0})) → Action (Unit {0})
for_each [] f = pure tt
for_each (x ∷ xs) f = let rest = for_each xs f in do f x; rest
