-- ===== src/App/Choices.antt =====
-- The index that a menu returns is one of its choices.
use hamara_tunnel.Prelude.{
  ◌≡◌, ℕ, zero, suc, ◌≤◌, ◌<◌, String, List, Option, some, Option-cases, inl, inr, Result, ok, err,
  length, arith,
}
use hamara_tunnel.System.{Trace, Env, Action, pure, continue, ◌>>=◌}
use hamara_tunnel.App.{number_in, choose_loop, choose}

-- Each number that the action returns is below the bound.
record Below (bound : ℕ) (m : Action (Option ℕ)) : Type 0 where
  at : (env : Env) (t : Trace) (n : ℕ) → (m env t).0 ≡ ok (some n) → n < bound

number_in-range :
    (lo hi : ℕ) (s : String) (n : ℕ) → number_in lo hi s ≡ some n → (lo ≤ n) × (n ≤ hi)
unfolding number_in
number_in-range lo hi s n h = ground arith

module _ {A : Type 0} (bound : ℕ) where
  continue-Below :
      (r : Result A) (f : A → Action (Option ℕ)) (env : Env) (t : Trace) (n : ℕ)
      → ((a : A) → Below bound (f a))
      → (continue r f env t).0 ≡ ok (some n)
      → n < bound
  unfolding continue
  continue-Below (ok a) f env t n k h = (k a).at env t n h
  continue-Below (err e) f env t n k h = cc

  Below-bind :
      (m : Action A) (f : A → Action (Option ℕ))
      → ((a : A) → Below bound (f a))
      → Below bound (m >>= f)
  unfolding ◌>>=◌
  Below-bind m f k = record { at = λ env t n h. continue-Below (m env t).0 f env (m env t).1 n k h }

Below-choose_loop : (fuel count : ℕ) → Below count (choose_loop fuel count)
unfolding choose_loop pure
Below-choose_loop zero count = record { at = λ env t n h. cc }
Below-choose_loop (suc fuel) count = Below-bind count _ _ (λ value.
    elim (Option-cases (number_in 1 count value)) [
      | inl e ↦ rw e (Below-bind count _ _ (λ _. Below-choose_loop fuel count))
      | inr (n, e) ↦ rw e (record {
        at = λ env t m h. let range = number_in-range 1 count value n e in ground arith;
      })
    ])

-- The answer to a question with choices is the index of one of them: for every fuel, question, list of
-- choices, environment and trace, a number that is returned is below the number of the choices.
pub choose-bound :
    (fuel : ℕ) (question : String) (choices : List String) (env : Env) (t : Trace) (n : ℕ)
    → (choose fuel question choices env t).0 ≡ ok (some n)
    → n < length choices
unfolding choose
choose-bound fuel question choices env t n h =
    (Below-bind (length choices) _ _
        (λ _. Below-bind (length choices) _ _ (λ _. Below-choose_loop fuel (length choices)))).at
      env t n h
