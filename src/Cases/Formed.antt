-- ===== src/Cases/Formed.antt =====
-- Every command keeps the parser's state well-formed.
use task_maker.Prelude.{
  ℕ, suc, ◌<◌, ◌≡◌, refl, sym, ap, ◌∙◌, subst, String, Bool, true, false, not, Option, none, some,
  List, [], ◌∷◌, ◌++◌, append-nil, append_assoc, Dict, insert, nat_eq, string_eq, ◌==◌, length, All,
  All-append, Bool-cases, inl, inr, Holds, Holds->>=, Holds-if, Holds-ok, Holds-err, require-ok,
}
use task_maker.Floats.{Floats}
use task_maker.Sources.{Dependency}
use task_maker.Formats.{
  Constraint, TestCase, Subtask, Generator, Numbers, new_testcase, agree, given, named,
}
use task_maker.Cases.{
  Parser, Setting, is_nil, declare_gen, choose_gen, declare_val, choose_val, process_gen,
  process_val, process_subtask, process_description,
}
use task_maker.Cases.Limits.{add_constraint}
use task_maker.Cases.Rows.{put_testcase, process_copy}
use task_maker.Cases.Numbers.{
  upto, upto-lt, Row, Rows, Extends, numbers, numbers-append, numbers-change_last,
  numbers-with_case, WellFormed, length-change_last, All-change_last,
}

pub not-true : (b : Bool) → not b ≡ true → b ≡ false
not-true true h = absurd cc
not-true false h = refl

pub Row-new_testcase :
    (g v : Option Generator) (args : List String) (deps : List Dependency) (i o : Option String)
    (k : ℕ)
    → Holds (Row k) (new_testcase g v args deps i o k)
unfolding new_testcase
Row-new_testcase g v args deps i o k = elim (Bool-cases (agree (given g) (named i))) [
  | inl p ↦ rw p (Holds-err (Row k) _)
  | inr p ↦ rw p (Holds-ok (Row k) _ (refl, refl, p))
]

Rows-insert :
    (k : ℕ) (t : TestCase) (d : Dict ℕ TestCase)
    → Row k t
    → All (λ kt. Row kt.0 kt.1) d
    → All (λ kt. Row kt.0 kt.1) (insert k t d)
unfolding insert
Rows-insert k t [] r h = (r, tt)
Rows-insert k t ((j, u) ∷ d) r h = elim (Bool-cases (j == k)) [
  | inl p ↦ rw p (subst (λ i. Row i t) (sym ((nat_eq.beq_iff j k).0 p)) r, h.1)
  | inr p ↦ rw p (h.0, Rows-insert k t d r h.1)
]

length-snoc : {A : Type 0} (l : List A) (x : A) → length (l ++ x ∷ []) ≡ suc (length l)
length-snoc [] x = refl
length-snoc (y ∷ l) x = ap suc (length-snoc l x)

module _ {F : Type 0} where
  abbrev Wf : Parser F → Type 0
  Wf p = WellFormed p

  pub put_testcase-WellFormed :
      (t : TestCase) (p : Parser F)
      → WellFormed p
      → is_nil p.subtasks ≡ false
      → Row p.tc_num t
      → WellFormed (put_testcase t p)
  unfolding put_testcase
  put_testcase-WellFormed t p w n r = record {
    numbered =
        numbers-with_case p.tc_num t p.subtasks n
          (subst (All (λ j. j < p.tc_num)) (sym w.numbered) (upto-lt p.tc_num))
        ∙ ap (λ l. l ++ p.tc_num ∷ []) w.numbered;
    counted = w.counted ∙ sym (length-change_last _ p.subtasks);
    inherits =
        All-change_last _ (λ st. Extends p.constraints st.constraints) (λ st h. h) p.subtasks
          w.inherits;
    rows =
        All-change_last _ Rows (λ st h. Rows-insert p.tc_num t st.testcases r h) p.subtasks w.rows;
  }

  pub process_copy-WellFormed :
      (lineno : ℕ) (args : List String) (p : Parser F)
      → WellFormed p
      → Holds Wf (process_copy lineno args p)
  unfolding process_copy
  process_copy-WellFormed lineno [] p w = Holds->>= Wf _ _ (λ u q. Holds-err Wf _)
  process_copy-WellFormed lineno (a ∷ b ∷ l) p w = Holds->>= Wf _ _ (λ u q. Holds-err Wf _)
  process_copy-WellFormed lineno (path ∷ []) p w = Holds->>= Wf _ _ (λ u q.
      Holds->>= Wf _ _ (λ val q'. Holds->>= Wf _ _ (λ t e. Holds-ok Wf _ (
        put_testcase-WellFormed t p w (not-true _ (require-ok _ _ q))
          ((Row-new_testcase none (some val) [] [] (some path) none p.tc_num).at t e)))))

  -- An operation that changes neither the subtasks nor what they are measured by.
  unchanged :
      (p q : Parser F)
      → q.subtasks ≡ p.subtasks
      → q.constraints ≡ p.constraints
      → q.tc_num ≡ p.tc_num
      → q.st_count ≡ p.st_count
      → WellFormed p
      → WellFormed q
  unchanged p q a b c d w = record {
    numbered = ap numbers a ∙ w.numbered ∙ ap upto (sym c);
    counted = d ∙ w.counted ∙ ap length (sym a);
    inherits = rw (a, b) w.inherits;
    rows = rw a w.rows;
  }

  module _ (s : Setting) (lineno : ℕ) where
    pub process_gen-WellFormed :
        (args : List String) (p : Parser F) → WellFormed p → Holds Wf (process_gen s lineno args p)
    unfolding process_gen
    process_gen-WellFormed args p w = Holds-if Wf _ _ _ (declare args) (choose args)
      where
        declare : (args : List String) → Holds Wf (declare_gen s lineno args p)
        declare [] = Holds-err Wf _
        declare (name ∷ []) = Holds-err Wf _
        declare (name ∷ path ∷ spec) = Holds->>= Wf _ _ (λ u r. Holds->>= Wf _ _ (λ g q.
            elim (Bool-cases (name == "default")) [
              | inl b ↦ rw b (Holds-ok Wf _ (unchanged p _ refl refl refl refl w))
              | inr b ↦ rw b (Holds-ok Wf _ (unchanged p _ refl refl refl refl w))
            ]))

        choose : (args : List String) → Holds Wf (choose_gen s lineno args p)
        choose [] = Holds-err Wf _
        choose (name ∷ []) =
            Holds->>= Wf _ _ (λ g q. Holds-ok Wf _ (unchanged p _ refl refl refl refl w))
        choose (name ∷ b ∷ l) = Holds-err Wf _

    pub process_val-WellFormed :
        (args : List String) (p : Parser F) → WellFormed p → Holds Wf (process_val s lineno args p)
    unfolding process_val
    process_val-WellFormed args p w = Holds-if Wf _ _ _ (declare args) (choose args)
      where
        declare : (args : List String) → Holds Wf (declare_val s lineno args p)
        declare [] = Holds-err Wf _
        declare (name ∷ []) = Holds-err Wf _
        declare (name ∷ path ∷ spec) = Holds->>= Wf _ _ (λ u r. Holds->>= Wf _ _ (λ g q.
            elim (Bool-cases (name == "default")) [
              | inl b ↦ rw b (Holds-ok Wf _ (unchanged p _ refl refl refl refl w))
              | inr b ↦ rw b (Holds-ok Wf _ (unchanged p _ refl refl refl refl w))
            ]))

        choose : (args : List String) → Holds Wf (choose_val s lineno args p)
        choose [] = Holds-err Wf _
        choose (name ∷ []) =
            Holds->>= Wf _ _ (λ g q. Holds-ok Wf _ (unchanged p _ refl refl refl refl w))
        choose (name ∷ b ∷ l) = Holds-err Wf _

  module _ (fl : Floats F) (lineno : ℕ) where
    pub process_subtask-WellFormed :
        (args : List String) (p : Parser F)
        → WellFormed p
        → Holds Wf (process_subtask fl lineno args p)
    unfolding process_subtask
    process_subtask-WellFormed [] p w = Holds-err Wf _
    process_subtask-WellFormed (score ∷ name) p w = Holds->>= Wf _ _ (λ m q. Holds-ok Wf _ (record {
      numbered = numbers-append p.subtasks _ ∙ append-nil _ ∙ w.numbered;
      counted = ap suc w.counted ∙ sym (length-snoc p.subtasks _);
      inherits =
          All-append (λ st. Extends p.constraints st.constraints) p.subtasks _ w.inherits
            (([], sym (append-nil p.constraints)), tt);
      rows = All-append Rows p.subtasks _ w.rows (tt, tt);
    }))

  pub process_description-WellFormed :
      (lineno : ℕ) (args : List String) (p : Parser F)
      → WellFormed p
      → Holds Wf (process_description lineno args p)
  unfolding process_description
  process_description-WellFormed lineno args p w = Holds->>= Wf _ _ (λ u q.
      Holds->>= Wf _ _ (λ v q'. Holds-ok Wf _ (record {
        numbered = numbers-change_last _ (λ st. refl) p.subtasks ∙ w.numbered;
        counted = w.counted ∙ sym (length-change_last _ p.subtasks);
        inherits =
            All-change_last _ (λ st. Extends p.constraints st.constraints) (λ st h. h) p.subtasks
              w.inherits;
        rows = All-change_last _ Rows (λ st h. h) p.subtasks w.rows;
      })))

  module _ (fl : Floats F) (n : Numbers F) (lineno : ℕ) where
    pub add_constraint-WellFormed :
        (c : Constraint F) (p : Parser F) → WellFormed p → WellFormed (add_constraint fl n c p)
    add_constraint-WellFormed c p w = elim (Bool-cases (is_nil p.subtasks)) [
      | inl e ↦ rw e (record {
        numbered = w.numbered;
        counted = w.counted;
        inherits = none_yet _ p.subtasks e;
        rows = w.rows;
      })
      | inr e ↦ rw e (record {
        numbered = numbers-change_last _ (λ st. refl) p.subtasks ∙ w.numbered;
        counted = w.counted ∙ sym (length-change_last _ p.subtasks);
        inherits =
            All-change_last _ (λ st. Extends p.constraints st.constraints)
              (λ st h. (
                h.0 ++ c ∷ [],
                ap (λ l. l ++ c ∷ []) h.1 ∙ append_assoc p.constraints h.0 (c ∷ []),
              ))
              p.subtasks w.inherits;
        rows = All-change_last _ Rows (λ st h. h) p.subtasks w.rows;
      })
    ]
      where
        none_yet : (P : Subtask F → Type 0) (l : List (Subtask F)) → is_nil l ≡ true → All P l
        none_yet P [] e = tt
        none_yet P (x ∷ l) e = absurd cc
