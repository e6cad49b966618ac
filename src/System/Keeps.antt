-- ===== src/System/Keeps.antt =====
-- Invariants of what has happened, with one rule for each way to build an action.
use mathlib.Core.List.{[], ◌∷◌}
use hamara_tunnel.Prelude.{
  ◌≡◌, refl, String, Bool, true, false, if◌then◌else◌, Result, ok, err, is_ok, Error, List, All,
}
use hamara_tunnel.System.Requests.{Op, Reply, Trace, Env, print}
use hamara_tunnel.System.Actions.{
  Action, pure, lift, fail, attempt, ignore, continue, ◌>>=◌, perform, text_of, done, ask, call,
  say, refuse_if, do_if, for_each,
}

-- `m` keeps `P` in every environment, whether it returns or fails.
pub record Keeps {A : Type 0} (P : Trace → Type 0) (m : Action A) : Type 0 where
  pub at : (env : Env) (t : Trace) → P t → P (m env t).1

-- `P` is kept by an event with a request that is allowed.
pub record Allows (P : Trace → Type 0) (op : Op) : Type 0 where
  pub event : (r : Reply) (t : Trace) → P t → P (record { op = op; reply = r } ∷ t)

module _ {P : Trace → Type 0} where
  pub Keeps-pure : {A : Type 0} (a : A) → Keeps P (pure a)
  unfolding pure
  Keeps-pure a = record { at = λ env t h. h }

  pub Keeps-lift : {A : Type 0} (r : Result A) → Keeps P (lift r)
  unfolding lift
  Keeps-lift r = record { at = λ env t h. h }

  pub Keeps-fail : {A : Type 0} (e : Error) → Keeps P (fail {A = A} e)
  unfolding fail
  Keeps-fail e = record { at = λ env t h. h }

  pub Keeps-attempt : {A : Type 0} (m : Action A) → Keeps P m → Keeps P (attempt m)
  unfolding attempt
  Keeps-attempt m k = record { at = λ env t h. k.at env t h }

  pub Keeps-ignore : {A : Type 0} (m : Action A) → Keeps P m → Keeps P (ignore m)
  unfolding ignore
  Keeps-ignore m k = record { at = λ env t h. k.at env t h }

  Keeps-continue :
      {A B : Type 0} (r : Result A) (f : A → Action B)
      → ((a : A) → r ≡ ok a → Keeps P (f a))
      → (env : Env) (t : Trace) → P t
      → P (continue r f env t).1
  unfolding continue
  Keeps-continue (ok a) f k env t h = (k a refl).at env t h
  Keeps-continue (err e) f k env t h = h

  pub Keeps-bind :
      {A B : Type 0} (m : Action A) (f : A → Action B)
      → Keeps P m
      → ((a : A) → Keeps P (f a))
      → Keeps P (m >>= f)
  unfolding ◌>>=◌
  Keeps-bind m f km kf = record {
    at = λ env t h. Keeps-continue (m env t).0 f (λ a _. kf a) env (m env t).1 (km.at env t h);
  }

  pub Keeps-perform : (op : Op) → Allows P op → Keeps P (perform op)
  unfolding perform
  Keeps-perform op a = record { at = λ env t h. a.event (env t op) t h }

  pub Keeps-ask : (op : Op) → Allows P op → Keeps P (ask op)
  unfolding ask
  Keeps-ask op a = Keeps-bind (perform op) _ (Keeps-perform op a) (λ r. Keeps-lift (text_of r))

  pub Keeps-call : (op : Op) → Allows P op → Keeps P (call op)
  unfolding call
  Keeps-call op a = Keeps-bind (perform op) _ (Keeps-perform op a) (λ r. Keeps-lift (done r))

  pub Keeps-say : (s : String) → Allows P (print s) → Keeps P (say s)
  unfolding say
  Keeps-say s a = Keeps-ignore _ (Keeps-perform (print s) a)

  pub Keeps-refuse_if : (b : Bool) (e : Error) → Keeps P (refuse_if b e)
  unfolding refuse_if
  Keeps-refuse_if true e = Keeps-fail e
  Keeps-refuse_if false e = Keeps-pure tt

  pub Keeps-do_if :
      (b : Bool) (m : Action (Unit {0})) → (b ≡ true → Keeps P m) → Keeps P (do_if b m)
  unfolding do_if
  Keeps-do_if true m k = k refl
  Keeps-do_if false m k = Keeps-pure tt

  pub Keeps-if :
      {A : Type 0} (b : Bool) (left right : Action A)
      → (b ≡ true → Keeps P left)
      → (b ≡ false → Keeps P right)
      → Keeps P (if b then left else right)
  Keeps-if true left right ky kn = ky refl
  Keeps-if false left right ky kn = kn refl

  pub Keeps-for_each :
      {A : Type 0} (xs : List A) (f : A → Action (Unit {0}))
      → ((x : A) → Keeps P (f x))
      → Keeps P (for_each xs f)
  unfolding for_each
  Keeps-for_each [] f k = Keeps-pure tt
  Keeps-for_each (x ∷ xs) f k = Keeps-bind (f x) _ (k x) (λ _. Keeps-for_each xs f k)

-- A loop over a list whose items are known.
pub Keeps-for_each-All :
    {P : Trace → Type 0} {A : Type 0} (xs : List A) (f : A → Action (Unit {0}))
    → All (λ x. Keeps P (f x)) xs
    → Keeps P (for_each xs f)
unfolding for_each
Keeps-for_each-All [] f k = Keeps-pure tt
Keeps-for_each-All (x ∷ xs) f (kx, k) = Keeps-bind (f x) _ kx (λ _. Keeps-for_each-All xs f k)

-- `m` keeps `P`, and where it returns a value `Q` holds behind it.
pub record Reaches {A : Type 0} (P Q : Trace → Type 0) (m : Action A) : Type 0 where
  pub keeps : Keeps P m
  pub reached : (env : Env) (t : Trace) → P t → is_ok (m env t).0 ≡ true → Q (m env t).1

module _ {P Q : Trace → Type 0} (weaken : (t : Trace) → Q t → P t) where
  continue-reached :
      {A B : Type 0} (r : Result A) (f : A → Action B) (env : Env) (t : Trace)
      → P t
      → (is_ok r ≡ true → Q t)
      → ((a : A) → Keeps Q (f a))
      → P (continue r f env t).1
  unfolding continue
  continue-reached (ok a) f env t p q k = weaken _ ((k a).at env t (q refl))
  continue-reached (err e) f env t p q k = p

  -- What follows may rely on `Q`.
  pub Keeps-reached :
      {A B : Type 0} (m : Action A) (f : A → Action B)
      → Reaches P Q m
      → ((a : A) → Keeps Q (f a))
      → Keeps P (m >>= f)
  unfolding ◌>>=◌
  Keeps-reached m f r k = record {
    at = λ env t p. continue-reached _ f env _ (r.keeps.at env t p) (r.reached env t p) k;
  }

pub ruleset keeps_rules = (
  Keeps-pure, Keeps-lift, Keeps-fail, Keeps-attempt, Keeps-ignore, Keeps-bind, Keeps-perform,
  Keeps-ask, Keeps-call, Keeps-say, Keeps-refuse_if, Keeps-do_if, Keeps-if, Keeps-for_each,
)
