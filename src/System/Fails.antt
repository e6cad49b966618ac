-- ===== src/System/Fails.antt =====
-- Actions that fail in an environment, and keep an invariant until they do.
use hamara_tunnel.Prelude.{◌≡◌, refl, false, Result, ok, err, is_ok}
use hamara_tunnel.System.Requests.{Trace, Env}
use hamara_tunnel.System.Actions.{Action, lift, continue, ◌>>=◌}
use hamara_tunnel.System.Keeps.{Keeps}

-- From every trace with `P`, `m` leaves a trace with `P` and returns an error.
pub record Refuses {A : Type 0} (P : Trace → Type 0) (env : Env) (m : Action A) : Type 0 where
  pub at : (t : Trace) → P t → P (m env t).1 × (is_ok (m env t).0 ≡ false)

module _ {P : Trace → Type 0} {env : Env} {A B : Type 0} where
  Refuses-continue :
      (r : Result A) (f : A → Action B) (t : Trace)
      → P t
      → ((a : A) → r ≡ ok a → Refuses P env (f a))
      → P (continue r f env t).1 × (is_ok (continue r f env t).0 ≡ false)
  unfolding continue
  Refuses-continue (ok a) f t p k = (k a refl).at t p
  Refuses-continue (err e) f t p k = (p, refl)

  -- What follows fails for each value that the first action returns.
  pub Refuses-bind :
      (m : Action A) (f : A → Action B)
      → Keeps P m
      → ((t : Trace) (a : A) → P t → (m env t).0 ≡ ok a → Refuses P env (f a))
      → Refuses P env (m >>= f)
  unfolding ◌>>=◌
  Refuses-bind m f keeps k = record {
    at = λ t p. Refuses-continue (m env t).0 f (m env t).1 (keeps.at env t p) (λ a. k t a p);
  }

  pub Refuses-lift_bind :
      (r : Result A) (f : A → Action B) → is_ok r ≡ false → Refuses P env (lift r >>= f)
  unfolding lift ◌>>=◌ continue
  Refuses-lift_bind (ok a) f h = cc
  Refuses-lift_bind (err e) f h = record { at = λ t p. (p, refl) }
