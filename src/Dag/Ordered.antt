-- ===== src/Dag/Ordered.antt =====
-- Every execution depends only on executions that were registered before it.
use task_maker.Prelude.{
  ℕ, zero, suc, ◌+◌, ◌≤◌, ◌<◌, ◌≡◌, Option, none, some, List, [], ◌∷◌, ◌++◌, values, length, set,
  All, arith,
}
use task_maker.Dag.{
  File, provided, content, stdout, stderr, output, Input, file, fifo, Command, local, system, Entry,
  Dag,
}

-- A file that comes from the disk, a text, or one of the first `n` executions.
abbrev pub Below : ℕ → File → Type 0
Below n (provided p) = Unit
Below n (content s) = Unit
Below n (stdout k) = k < n
Below n (stderr k) = k < n
Below n (output k p) = k < n

abbrev pub BelowInput : ℕ → Input → Type 0
BelowInput n (file f) = Below n f
BelowInput n (fifo p) = Unit

abbrev pub BelowCommand : ℕ → Command → Type 0
BelowCommand n (local name f) = Below n f
BelowCommand n (system name) = Unit

abbrev pub Given {ℓ} : {A : Type ℓ} → (A → Type 0) → Option A → Type 0
Given P none = Unit
Given P (some a) = P a

module _ {F : Type 0} where
  -- All that an execution reads: its executable, its standard input and its other inputs.
  abbrev pub EntryBelow : ℕ → Entry F → Type 0
  EntryBelow n e =
      BelowCommand n e.command × Given (BelowInput n) e.stdin × All (BelowInput n) (values e.inputs)

  abbrev pub EntriesFrom : ℕ → List (Entry F) → Type 0
  EntriesFrom i [] = Unit
  EntriesFrom i (e ∷ es) = EntryBelow i e × EntriesFrom (suc i) es

  -- The executions are numbered by their order, each reads only from earlier ones, and every file that
  -- the program keeps is one of an execution that is registered.
  pub record Ordered (d : Dag F) : Type 0 where
    pub entries : EntriesFrom 0 d.entries
    pub prepared : All (Given (Below (length d.entries))) (values d.prepared)
    pub case_inputs : All (Below (length d.entries)) (values d.case_inputs)
    pub case_outputs : All (Below (length d.entries)) (values d.case_outputs)
    pub case_validations : All (Below (length d.entries)) (values d.case_validations)

pub Below-le : (n m : ℕ) (f : File) → n ≤ m → Below n f → Below m f
Below-le n m (provided p) l h = tt
Below-le n m (content s) l h = tt
Below-le n m (stdout k) l h = omega arith
Below-le n m (stderr k) l h = omega arith
Below-le n m (output k p) l h = omega arith

pub BelowInput-le : (n m : ℕ) (i : Input) → n ≤ m → BelowInput n i → BelowInput m i
BelowInput-le n m (file f) l h = Below-le n m f l h
BelowInput-le n m (fifo p) l h = tt

pub Given-map {ℓ} :
    {A : Type ℓ} (P Q : A → Type 0) (o : Option A) → ((a : A) → P a → Q a) → Given P o → Given Q o
Given-map P Q none f h = tt
Given-map P Q (some a) f h = f a h

module _ {F : Type 0} where
  pub EntriesFrom-append :
      (i : ℕ) (es : List (Entry F)) (e : Entry F)
      → EntriesFrom i es
      → ((j : ℕ) → EntryBelow j e)
      → EntriesFrom i (es ++ e ∷ [])
  EntriesFrom-append i [] e h k = (k i, tt)
  EntriesFrom-append i (x ∷ es) e h k = (h.0, EntriesFrom-append (suc i) es e h.1 k)

  -- The entry at `k` may be exchanged for one that reads only from those before it.
  pub EntriesFrom-set :
      (i j k : ℕ) (es : List (Entry F)) (e : Entry F)
      → i + k ≡ j
      → EntriesFrom i es
      → EntryBelow j e
      → EntriesFrom i (set es k e)
  EntriesFrom-set i j k [] e p h b = tt
  EntriesFrom-set i j zero (x ∷ es) e p h b = let q : j ≡ i = omega arith in (rw q at b, h.1)
  EntriesFrom-set i j (suc k) (x ∷ es) e p h b =
      (h.0, EntriesFrom-set (suc i) j k es e (omega arith) h.1 b)
