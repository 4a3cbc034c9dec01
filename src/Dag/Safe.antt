-- ===== src/Dag/Safe.antt =====
-- Rules for the statements that build a computation: they keep its order, never take an execution
-- back, and give files of executions that are registered.
use task_maker.Prelude.{
  ℕ, ◌≤◌, ◌≡◌, refl, Bool, true, false, String, Option, some, length, Error, runtime_error,
  value_error, value_error_at, key_error, index_error, type_error, attribute_error, zero_division,
  file_not_found, Result, ok, err, ok-injective, or_raise-ok, subst, arith, if◌then◌else◌,
}
use task_maker.Prelude.Execs.{
  Exec, continue, pure, throw, lift, get, fetch, modify, handled, catch_runtime, ◌>>=◌,
}
use task_maker.Dag.{Dag}
use task_maker.Dag.Ordered.{Ordered}

module _ {F : Type 0} where
  abbrev pub size : Dag F → ℕ
  size d = length d.entries

  -- After `d`, the outcome `r`: in order, no shorter, and its value meets `Q` at the new length.
  abbrev pub Outcome : {A : Type 0} → (ℕ → A → Type 0) → Dag F → Result A × Dag F → Type 0
  Outcome Q d r = Ordered r.1 × (size d ≤ size r.1) × ((a : _) → r.0 ≡ ok a → Q (size r.1) a)

  -- `method` keeps the order wherever `n` executions are registered at least.
  pub record Safe {A : Type 0} (n : ℕ) (method : Exec (Dag F) A) (Q : ℕ → A → Type 0) : Type 0 where
    pub at : (d : Dag F) → Ordered d → n ≤ size d → Outcome Q d (method d)

module _ {F A B : Type 0} (n : ℕ) (Q : ℕ → A → Type 0) (R : ℕ → B → Type 0) where
  continue-Safe :
      (r : Result A) (next : A → Exec (Dag F) B) (d e : Dag F)
      → n ≤ size d
      → Outcome Q d (r, e)
      → ((m : ℕ) (a : A) → n ≤ m → Q m a → Safe m (next a) R)
      → Outcome R d (continue r next e)
  continue-Safe (err x) next d e l o k = (o.0, o.1, λ a q. absurd cc)
  continue-Safe (ok a) next d e l o k =
      let p : size d ≤ size e = o.1 in
      let s = (k (size e) a (omega arith) (o.2 a refl)).at e o.0 (omega arith) in
      let q : size e ≤ size (next a e).1 = s.1 in (s.0, omega arith, s.2)

  pub Safe->>= :
      (first : Exec (Dag F) A) (next : A → Exec (Dag F) B)
      → Safe n first Q
      → ((m : ℕ) (a : A) → n ≤ m → Q m a → Safe m (next a) R)
      → Safe n (first >>= next) R
  unfolding ◌>>=◌
  Safe->>= first next s k = record {
    at = λ d o l. continue-Safe (first d).0 next d (first d).1 l (s.at d o l) k;
  }

module _ {F A : Type 0} (n : ℕ) (Q : ℕ → A → Type 0) where
  pub Safe-pure : (a : A) → ((m : ℕ) → n ≤ m → Q m a) → Safe {F = F} n (pure a) Q
  Safe-pure a h = record {
    at = λ d o l. (o, omega arith, λ b q. subst (Q (size d)) (ok-injective q) (h (size d) l));
  }

  pub Safe-lift :
      (r : Result A) → ((m : ℕ) (a : A) → n ≤ m → r ≡ ok a → Q m a) → Safe {F = F} n (lift r) Q
  Safe-lift r h = record { at = λ d o l. (o, omega arith, λ a q. h (size d) a l q) }

  pub Safe-throw : (e : Error) → Safe {F = F} n (throw e) Q
  Safe-throw e = record { at = λ d o l. (o, omega arith, λ a q. absurd cc) }

  pub Safe-get :
      (g : Dag F → A) → ((d : Dag F) → Ordered d → n ≤ size d → Q (size d) (g d)) → Safe n (get g) Q
  Safe-get g h = record {
    at = λ d o l. (o, omega arith, λ a q. subst (Q (size d)) (ok-injective q) (h d o l));
  }

  pub Safe-fetch :
      (g : Dag F → Option A) (e : Error)
      → ((d : Dag F) (a : A) → Ordered d → n ≤ size d → g d ≡ some a → Q (size d) a)
      → Safe n (fetch g e) Q
  Safe-fetch g e h = record {
    at = λ d o l. (o, omega arith, λ a q. h d a o l (or_raise-ok (g d) e q));
  }

  pub Safe-if :
      (b : Bool) (x y : Exec (Dag F) A) → Safe n x Q → Safe n y Q → Safe n (if b then x else y) Q
  Safe-if true x y h k = h
  Safe-if false x y h k = k

  pub Safe-weaken : (m : ℕ) (x : Exec (Dag F) A) → n ≤ m → Safe n x Q → Safe m x Q
  Safe-weaken m x l s = record { at = λ d o k. s.at d o (omega arith) }

  handled-Safe :
      (r : Result A) (handler : String → Exec (Dag F) A) (d e : Dag F)
      → n ≤ size d
      → Outcome Q d (r, e)
      → ((m : ℕ) (what : String) → n ≤ m → Safe m (handler what) Q)
      → Outcome Q d (handled r handler e)
  handled-Safe (ok a) handler d e l o k = o
  handled-Safe (err (runtime_error what)) handler d e l o k =
      let p : size d ≤ size e = o.1 in
      let s = (k (size e) what (omega arith)).at e o.0 (omega arith) in
      let q : size e ≤ size (handler what e).1 = s.1 in (s.0, omega arith, s.2)
  handled-Safe (err key_error) handler d e l o k = o
  handled-Safe (err index_error) handler d e l o k = o
  handled-Safe (err type_error) handler d e l o k = o
  handled-Safe (err attribute_error) handler d e l o k = o
  handled-Safe (err zero_division) handler d e l o k = o
  handled-Safe (err file_not_found) handler d e l o k = o
  handled-Safe (err (value_error s)) handler d e l o k = o
  handled-Safe (err (value_error_at s i)) handler d e l o k = o

  pub Safe-catch_runtime :
      (method : Exec (Dag F) A) (handler : String → Exec (Dag F) A)
      → Safe n method Q
      → ((m : ℕ) (what : String) → n ≤ m → Safe m (handler what) Q)
      → Safe n (catch_runtime method handler) Q
  unfolding catch_runtime
  Safe-catch_runtime method handler s k = record {
    at = λ d o l. handled-Safe (method d).0 handler d (method d).1 l (s.at d o l) k;
  }

module _ {F : Type 0} (n : ℕ) where
  -- A write that registers nothing.
  pub Safe-modify :
      (f : Dag F → Dag F)
      → ((d : Dag F) → Ordered d → n ≤ size d → Ordered (f d) × (size (f d) ≡ size d))
      → Safe n (modify f) (λ m u. Unit {0})
  Safe-modify f h = record {
    at = λ d o l.
        let r = h d o l in let e : size (f d) ≡ size d = r.1 in (r.0, omega arith, λ a q. tt);
  }
