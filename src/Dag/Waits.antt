-- ===== src/Dag/Waits.antt =====
-- A solution runs on an input only after the input was validated: python/solution.py.
use task_maker.Prelude.{
  ℕ, ◌≡◌, refl, ap, String, true, false, Option, some, [], ◌∷◌, ◌++◌, Dict, lookup, insert,
  string_eq, ◌==◌, is_empty, ok, Bool-cases, inl, inr,
}
use task_maker.Floats.{Floats}
use task_maker.Sources.{World, SourceFile}
use task_maker.Dag.{File, Input, file, local, Config, Entry, Dag, key_of}
use task_maker.Dag.Setup.{all_inputs, filled, new_execution}
use task_maker.Dag.Solutions.{IoiTask, batch_setup, with_input, wait_validation, solution_limits}
use task_maker.Dag.Registered.{new_execution_lem}

module _ {F : Type 0} (fl : Floats F) (w : World) (config : Config F) (task : IoiTask F) where
  -- The inputs of the solution: the validation's output, and the testcase's input where it has a name.
  Waiting : File → Dict String (Option Input) → Type 0
  Waiting v d =
      (given : Dict String Input) × (all_inputs d ≡ ok given)
      × (lookup "tm_wait_validation" given ≡ some (file v))

  with_input-Waiting :
      (input v : File)
      → ("tm_wait_validation" == task.input_file) ≡ false
      → Waiting v (with_input fl w config task input (wait_validation fl w config task (some v)))
  unfolding Waiting insert lookup
  with_input-Waiting input v differs = elim (Bool-cases (is_empty task.input_file)) [
    | inl e ↦ rw e (("tm_wait_validation", file v) ∷ [], refl, refl)
    | inr e ↦
        rw (e, differs)
          (("tm_wait_validation", file v) ∷ (task.input_file, file input) ∷ [], refl, refl)
  ]

  -- When a compiled solution is prepared and its task does not name the input file as the program names
  -- the validation's output, the evaluation on a validated testcase is registered with that output among
  -- its inputs, so that it starts after the validation, and with the limits of the task.
  pub batch_setup-waits :
      (source : SourceFile) (f : File) (testcase : ℕ) (input v : File) (d : Dag F)
      → source.language.need_compilation ≡ true
      → lookup (key_of source) d.prepared ≡ some (some f)
      → ("tm_wait_validation" == task.input_file) ≡ false
      → (e : Entry F) × ((new_execution fl w config
            (batch_setup fl w config task source testcase input (some v))
            d).1.entries
          ≡ d.entries ++ e ∷ [])
        × (lookup "tm_wait_validation" e.inputs ≡ some (file v))
        × (e.limits ≡ some (solution_limits fl w config task))
  unfolding Waiting
  batch_setup-waits source f testcase input v d compiled prepared differs =
      let (given, inputs, waits) = with_input-Waiting input v differs in
      let s = batch_setup fl w config task source testcase input (some v) in
      (
        filled fl w config s (local source.exe_name f) given,
        ap (λ r. r.1.entries)
            (new_execution_lem fl w config s source f given d refl compiled prepared inputs refl),
        waits,
        refl,
      )
