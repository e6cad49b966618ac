-- ===== src/Platform/Atomic.antt =====
-- What the requests of `WriteFile` do to the files: a file's text and mode, followed through the
-- program's own requests.
use mathlib.Core.List.{[], ◌∷◌}
use text.Mathlib.TextPositions.{len-append}
use hamara_tunnel.Prelude.{
  ℕ, ◌≡◌, ◌≢◌, refl, ap, sym, String, ◌<>◌, len, Bool, true, false, ◌||◌, Option, none, some, ◌==◌,
  eq_iff, Bool-cases, inl, inr, if◌then◌else◌, Result, ok, err, Error, is_ok, arith,
}
use hamara_tunnel.Text.{has_prefix}
use hamara_tunnel.System.{
  Op, continue, write_file, rename, mkdir_all, chmod, remove, remove_all, Trace, Env, Action, call,
  perform, lift, done, ◌>>=◌, ◌>>◌,
}
use hamara_tunnel.Platform.Files.{put_file, dir_of}

-- The mode is known once it has been set.
pub record Saved : Type 0 where
  pub text : String
  pub mode : Option ℕ

abbrev pub FileSystem : Type 0
FileSystem = String → Option Saved

abbrev pub with_mode : ℕ → Option Saved → Option Saved
with_mode mode none = none
with_mode mode (some f) = some (record f { mode = some mode })

-- What a request does to the files, by whether it succeeded. A write that failed may have left any
-- text; commands are not followed.
abbrev pub effect : Op → Bool → FileSystem → FileSystem
effect (write_file q content mode) true files p =
    if q == p then some (record { text = content; mode = none }) else files p
effect (write_file q content mode) false files p = if q == p then none else files p
effect (chmod q mode) true files p = if q == p then with_mode mode (files p) else files p
effect (rename a b) true files p = if b == p then files a else if a == p then none else files p
effect (remove q) true files p = if q == p then none else files p
effect (remove_all q) true files p = if q == p || has_prefix p (q <> "/") then none else files p
effect op succeeded files p = files p

-- The files after a trace.
abbrev pub files_after : Trace → FileSystem
files_after [] = λ p. none
files_after (e ∷ t) = effect e.op (is_ok (done e.reply)) (files_after t)

-- A request and what follows it: it succeeds and the rest runs, or its error ends the action.
module _ (Q : Result (Unit {0}) × Trace → Type 0) where
  continue-cases :
      (r : Result (Unit {0})) (n : Action (Unit {0})) (env : Env) (t : Trace)
      → (is_ok r ≡ true → Q (n env t))
      → ((e : Error) → is_ok r ≡ false → Q (err e, t))
      → Q (continue r (λ _. n) env t)
  unfolding continue
  continue-cases (ok tt) n env t good bad = good refl
  continue-cases (err e) n env t good bad = bad e refl

  call-cases :
      (op : Op) (n : Action (Unit {0})) (env : Env) (t : Trace)
      → (is_ok (done (env t op)) ≡ true → Q (n env (record { op = op; reply = env t op } ∷ t)))
      → ((e : Error)
          → is_ok (done (env t op)) ≡ false
          → Q (err e, record { op = op; reply = env t op } ∷ t))
      → Q ((call op >> n) env t)
  unfolding call perform lift ◌>>=◌
  call-cases op n env t good bad = continue-cases (done (env t op)) n env _ good bad

  result-cases :
      (r : Result (Unit {0})) (t : Trace)
      → (is_ok r ≡ true → Q (ok tt, t))
      → ((e : Error) → is_ok r ≡ false → Q (err e, t))
      → Q (r, t)
  result-cases (ok tt) t good bad = good refl
  result-cases (err e) t good bad = bad e refl

  last-cases :
      (op : Op) (env : Env) (t : Trace)
      → (is_ok (done (env t op)) ≡ true → Q (ok tt, record { op = op; reply = env t op } ∷ t))
      → ((e : Error)
          → is_ok (done (env t op)) ≡ false
          → Q (err e, record { op = op; reply = env t op } ∷ t))
      → Q (call op env t)
  unfolding call perform lift ◌>>=◌ continue
  last-cases op env t good bad = result-cases (done (env t op)) _ good bad

-- The outcome of a replacement of the file at `path`, from the files before it.
record IsAtomic (path content : String) (mode : ℕ) (before : FileSystem)
    (out : Result (Unit {0}) × Trace) : Type 0 where
  target :
      files_after out.1 path
      ≡ (if is_ok out.0 then some (record { text = content; mode = some mode }) else before path)
  others : (p : String) → p ≢ path → p ≢ path <> ".tmp" → files_after out.1 p ≡ before p

tmp_len : (path : String) → len (path <> ".tmp") ≡ len path → ⊥
tmp_len path h = omega (arith, len-append path ".tmp")

tmp-ne : (path : String) → ((path <> ".tmp") == path) ≡ false
tmp-ne path = elim (Bool-cases ((path <> ".tmp") == path)) [
  | inl e ↦ elim (tmp_len path (ap len ((eq_iff (path <> ".tmp") path).0 e))) [ ]
  | inr e ↦ e
]

eq_refl : (s : String) → (s == s) ≡ true
eq_refl s = (eq_iff s s).1 refl

ne-false : (s t : String) → t ≢ s → (s == t) ≡ false
ne-false s t h = elim (Bool-cases (s == t)) [
  | inl e ↦ elim (h (sym ((eq_iff s t).0 e))) [ ]
  | inr e ↦ e
]

-- A request and its answer are recorded.
abbrev after : Env → Op → Trace → Trace
after env op t = record { op = op; reply = env t op } ∷ t

module _ (path content : String) (mode : ℕ) (env : Env) (t : Trace) where
  abbrev made : Trace
  made = after env (mkdir_all (dir_of path) 0o755) t

  abbrev written : Trace
  written = after env (write_file (path <> ".tmp") content mode) made

  abbrev restricted : Trace
  restricted = after env (chmod (path <> ".tmp") mode) written

  abbrev Goal : Result (Unit {0}) × Trace → Type 0
  Goal = IsAtomic path content mode (files_after t)

  put_file-IsAtomic : IsAtomic path content mode (files_after t) (put_file path content mode env t)
  unfolding put_file
  put_file-IsAtomic =
      call-cases Goal (mkdir_all (dir_of path) 0o755) _ env t
        (λ h1.
          call-cases Goal (write_file (path <> ".tmp") content mode) _ env made
            (λ h2.
              call-cases Goal (chmod (path <> ".tmp") mode) _ env written
                (λ h3.
                  last-cases Goal (rename (path <> ".tmp") path) env restricted
                    (λ h4. record {
                      target = rw (h4, h3, h2, tmp-ne path, eq_refl (path <> ".tmp"), eq_refl path);
                      others = λ p hp ht.
                          rw (h4, h3, h2, ne-false path p hp, ne-false (path <> ".tmp") p ht);
                    })
                    (λ e h4. record {
                      target = rw (h4, h3, h2, tmp-ne path);
                      others = λ p hp ht. rw (h4, h3, h2, ne-false (path <> ".tmp") p ht);
                    }))
                (λ e h3. record {
                  target = rw (h3, h2, tmp-ne path);
                  others = λ p hp ht. rw (h3, h2, ne-false (path <> ".tmp") p ht);
                }))
            (λ e h2. record {
              target = rw (h2, tmp-ne path);
              others = λ p hp ht. rw (h2, ne-false (path <> ".tmp") p ht);
            }))
        (λ e h1. record { target = refl; others = λ p hp ht. refl })

-- A file is replaced as a whole: for every path, content, mode, environment and trace, the file at the
-- path has the content and the mode if the write succeeds, and is what it was if the write fails.
pub put_file-target :
    (path content : String) (mode : ℕ) (env : Env) (t : Trace)
    → files_after (put_file path content mode env t).1 path ≡ (
        if is_ok (put_file path content mode env t).0
        then some (record { text = content; mode = some mode })
        else files_after t path)
put_file-target path content mode env t = (put_file-IsAtomic path content mode env t).target

-- No other file is touched: whether the write succeeds or fails, each file but the one at the path and
-- the one beside it, whose name ends in `.tmp`, is what it was.
pub put_file-others :
    (path content : String) (mode : ℕ) (env : Env) (t : Trace) (p : String)
    → p ≢ path
    → p ≢ path <> ".tmp"
    → files_after (put_file path content mode env t).1 p ≡ files_after t p
put_file-others path content mode env t p = (put_file-IsAtomic path content mode env t).others p
