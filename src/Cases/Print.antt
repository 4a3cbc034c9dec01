-- ===== src/Cases/Print.antt =====
-- `generate_gen_GEN`: the list of testcases in the older format.
use task_maker.Prelude.{
  String, ◌+s◌, join, is_empty, Option, none, some, List, [], ◌∷◌, map, values, if◌then◌else◌,
  Result, ok, ◌>>=◌, or_raise, value_error,
}
use task_maker.Floats.{Floats}
use task_maker.Formats.{TestCase, Subtask, Numbers, constraint_text}

-- `quote` is shlex.quote.
module _ {F : Type 0} (fl : Floats F) (n : Numbers F) (quote : String → String) where
  abbrev worded : String → String
  worded s = if is_empty s then "" else " " +s s

  abbrev heading : String → String
  heading s = if is_empty s then "" else "#" +s (s +s "\n")

  abbrev path_of : Option String → String
  path_of none = "None"
  path_of (some s) = s

  abbrev testcase_line : TestCase → String
  testcase_line t = elim t.generator [
    | some g ↦ g.name +s (" " +s (join " " (map quote t.generator_args) +s "\n"))
    | none ↦ "#COPY: " +s (path_of t.input_file +s "\n")
  ]

  abbrev concat : List String → String
  concat [] = ""
  concat (s ∷ l) = s +s concat l

  -- `int` raises OverflowError or ValueError on a score that is an infinity or a NaN.
  abbrev subtask_text : Subtask F → Result String
  subtask_text st = do
    score ← or_raise (n.int_text st.max_score) (value_error "cannot convert float to integer")
    ok (
        "\n#ST: "
        +s (score
            +s ("\n"
                +s (heading (worded st.name +s worded st.description)
                    +s (concat (map (λ c. "# " +s (constraint_text fl n c +s "\n")) st.constraints)
                        +s concat (map testcase_line (values st.testcases)))))))

  abbrev subtasks_text : List (Subtask F) → Result String
  subtasks_text [] = ok ""
  subtasks_text (st ∷ sts) = do text ← subtask_text st; rest ← subtasks_text sts; ok (text +s rest)

  unfoldable pub generate_gen_gen : List (Subtask F) → Result String
  unfolding constraint_text
  generate_gen_gen subtasks = do
    text ← subtasks_text subtasks
    ok ("# Generated by task-maker. Do not edit!\n# tm-allow-delete\n" +s text)
