-- ===== src/Cases/Consecutive.antt =====
-- What `parse_cases` returns is well-formed.
use task_maker.Prelude.{
  ℕ, suc, ◌-◌, ◌≡◌, refl, String, false, Option, none, some, List, [], ◌∷◌, ◌++◌, map, string_eq,
  strip, is_empty, starts_with, Holds, Holds->>=, Holds-if, Holds-ok, Holds-err, require-ok,
}
use task_maker.Floats.{Floats}
use task_maker.Formats.{TestCase, Subtask, Generator, Numbers}
use task_maker.Cases.{Parser, Setting, is_nil}
use task_maker.Cases.Limits.{process_constraint}
use task_maker.Cases.Rows.{match_params, with_params, add_testcase, process_run, process_testcase}
use task_maker.Cases.Lines.{new_parser, process_command, process_line, process_lines, parse_cases}
use task_maker.Cases.Numbers.{Row, WellFormed}
use task_maker.Cases.Formed.{
  not-true, Row-new_testcase, put_testcase-WellFormed, process_gen-WellFormed,
  process_val-WellFormed, process_subtask-WellFormed, process_description-WellFormed,
  process_copy-WellFormed, add_constraint-WellFormed,
}

module _ {F : Type 0} (fl : Floats F) (n : Numbers F) where
  abbrev Wf : Parser F → Type 0
  Wf p = WellFormed p

  module _ (lineno k : ℕ) (subtask : Subtask F) (st_num : ℕ) where
    Row-match_params :
        (tc_num : ℕ) (done spec args : List String) (t : TestCase)
        → Row k t
        → Holds (Row k) (match_params fl n lineno subtask tc_num st_num done spec args t)
    unfolding match_params
    Row-match_params tc_num done [] args t r = Holds-ok (Row k) t r
    Row-match_params tc_num done (name ∷ spec) [] t r = Holds-ok (Row k) t r
    Row-match_params tc_num done (name ∷ spec) (arg ∷ args) t r = Holds->>= (Row k) _ _ (λ value q.
        Holds->>= (Row k) _ _ (λ u q'. Row-match_params tc_num (done ++ value ∷ []) spec args _ r))

    Row-with_params :
        (tc_num : ℕ) (spec : Option (List String)) (args : List String) (t : TestCase)
        → Row k t
        → Holds (Row k) (with_params fl n lineno spec args subtask tc_num st_num t)
    Row-with_params tc_num none args t r = Holds-ok (Row k) t r
    Row-with_params tc_num (some []) args t r = Holds-ok (Row k) t r
    Row-with_params tc_num (some (name ∷ spec)) args t r =
        Holds->>= (Row k) _ _ (λ u q. Row-match_params tc_num [] (name ∷ spec) args t r)

  add_testcase-WellFormed :
      (lineno : ℕ) (args : List String) (g : Generator) (v : Option Generator) (p : Parser F)
      → WellFormed p
      → is_nil p.subtasks ≡ false
      → Holds Wf (add_testcase fl n lineno args g v p)
  unfolding add_testcase
  add_testcase-WellFormed lineno args g v p w e = Holds->>= Wf _ _ (λ t q.
      Holds->>= Wf _ _ (λ subtask q'. Holds->>= Wf _ _ (λ filled q''. Holds-ok Wf _ (
        put_testcase-WellFormed filled p w e (
          (Row-with_params lineno p.tc_num subtask (p.st_count - 1) p.tc_num g.args_spec args t
              ((Row-new_testcase (some g) v args [] none none p.tc_num).at t q)).at
            filled q'')))))

  process_run-WellFormed :
      (lineno : ℕ) (args : List String) (p : Parser F)
      → WellFormed p
      → Holds Wf (process_run fl n lineno args p)
  unfolding process_run
  process_run-WellFormed lineno args p w = Holds->>= Wf _ _ (λ u q. Holds->>= Wf _ _ (λ x q'.
      Holds->>= Wf _ _ (λ g q''.
        add_testcase-WellFormed lineno x.1 g p.current_val p w (not-true _ (require-ok _ _ q)))))

  process_testcase-WellFormed :
      (lineno : ℕ) (args : List String) (p : Parser F)
      → WellFormed p
      → Holds Wf (process_testcase fl n lineno args p)
  unfolding process_testcase
  process_testcase-WellFormed lineno args p w = Holds->>= Wf _ _ (λ u q. Holds->>= Wf _ _ (λ g q'.
      Holds->>= Wf _ _ (λ v q''.
        add_testcase-WellFormed lineno args g (some v) p w (not-true _ (require-ok _ _ q)))))

  module _ (s : Setting) where
    process_command-WellFormed :
        (lineno : ℕ) (words : List String) (p : Parser F)
        → WellFormed p
        → Holds Wf (process_command s fl n lineno words p)
    unfolding process_command process_constraint
    process_command-WellFormed lineno [] p w = Holds-err Wf _
    process_command-WellFormed lineno (cmd ∷ args) p w =
        Holds-if Wf _ _ _ (process_gen-WellFormed s lineno args p w) (
          Holds-if Wf _ _ _ (process_val-WellFormed s lineno args p w) (
            Holds-if Wf _ _ _
              (Holds->>= Wf _ _
                (λ c q. Holds-ok Wf _ (add_constraint-WellFormed fl n lineno c p w)))
              (Holds-if Wf _ _ _ (process_subtask-WellFormed fl lineno args p w) (
                Holds-if Wf _ _ _ (process_description-WellFormed lineno args p w) (
                  Holds-if Wf _ _ _ (process_copy-WellFormed lineno args p w) (
                    Holds-if Wf _ _ _ (process_run-WellFormed lineno args p w)
                      (Holds-err Wf _)))))))

    process_line-WellFormed :
        (lineno : ℕ) (line : String) (p : Parser F)
        → WellFormed p
        → Holds Wf (process_line s fl n lineno line p)
    unfolding process_line
    process_line-WellFormed lineno line p w = Holds-if Wf (is_empty line) _ _ (Holds-ok Wf p w) (
        Holds-if Wf (starts_with line "#") _ _ (Holds-ok Wf p w) (
          Holds-if Wf (starts_with line ":") _ _
            (Holds->>= Wf _ _ (λ words q. process_command-WellFormed lineno words p w))
            (Holds->>= Wf _ _ (λ args q. process_testcase-WellFormed lineno args p w))))

    process_lines-WellFormed :
        (lineno : ℕ) (lines : List String) (p : Parser F)
        → WellFormed p
        → Holds Wf (process_lines s fl n lineno lines p)
    unfolding process_lines
    process_lines-WellFormed lineno [] p w = Holds-ok Wf p w
    process_lines-WellFormed lineno (line ∷ lines) p w = Holds->>= Wf _ _ (λ q e.
        process_lines-WellFormed (suc lineno) lines q
          ((process_line-WellFormed lineno line p w).at q e))

    -- Whenever the parser of cases.gen accepts a file, the testcases of all subtasks together are
    -- numbered 0, 1, 2, ... in the order of the subtasks, the current subtask is the last of as many as
    -- were counted, every subtask's constraints begin with the global ones, and every testcase writes
    -- to the files of its number and has either a generator or a static input, not both.
    pub parse_cases-WellFormed : (gen : List String) → Holds Wf (parse_cases s fl n gen)
    unfolding parse_cases new_parser
    parse_cases-WellFormed gen = Holds->>= Wf _ _ (λ p q.
        process_lines-WellFormed 1 (map strip gen) p
          ((Holds->>= Wf _ _ (λ g q'. Holds->>= Wf _ _ (λ v q''. Holds-ok Wf _ empty))).at p q))
      where
        empty :
            {g v : Option Generator}
            → Wf (record {
              subtasks = [];
              generators = [];
              validators = [];
              constraints = [];
              current_gen = none;
              current_val = none;
              default_gen = g;
              default_val = v;
              tc_num = 0;
              st_count = 0;
              task_default_gen = g;
              task_default_val = v;
            })
        empty = record { numbered = refl; counted = refl; inherits = tt; rows = tt }
