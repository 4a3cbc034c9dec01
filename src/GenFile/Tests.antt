-- ===== src/GenFile/Tests.antt =====
-- A gen/GEN with two subtasks and a static testcase.
use task_maker.Prelude.{
  ℕ, ◌≡◌, refl, String, List, [], ◌∷◌, none, Holds, Result, ok, err, insert, ◌>>=◌, strip,
  starts_with, drop_chars, before, values, false,
}
use task_maker.Sources.{system, World, Arch, Language}
use task_maker.Formats.{Generator}
use task_maker.Floats.Cents.{cents}
use task_maker.Cases.{Setting}
use task_maker.Cases.Numbers.{numbers}
use task_maker.GenFile.{Reader, read_file}
use task_maker.GenFile.Numbers.{Numbered, read_file-Numbered}

abbrev shell : Language
shell = record {
  name = "Shell";
  need_compilation = false;
  need_unit_name = false;
  get_compilation_command = λ fs exe unit ev arch. ok (system, "c++" ∷ "-o" ∷ exe ∷ fs);
  source_extensions = ".sh" ∷ [];
  get_dependencies = λ p. [];
  exe_name = λ p w. w;
}

abbrev world : World
world = record {
  exists = λ p. false;
  is_file = λ p. false;
  is_abs = λ p. false;
  glob = λ p. [];
  contents = λ p. [];
  basename = λ p. p;
  dirname = λ p. "gen";
  root = λ p. p;
  extension = λ p. ".sh";
  find_executable = λ p. none;
  words = λ s. ok (s ∷ []);
}

abbrev setting : Setting
setting = record {
  world = world;
  languages = record { languages = []; ext_cache = [] };
  task_name = "easy";
  copy_compiled = false;
}

abbrev program : Generator
program = record {
  name = "default";
  source_file = record {
    path = "gen/generator.sh";
    unit_name = "easy";
    exe_name = "generator";
    dependencies = [];
    language = shell;
    write_bin_to = none;
    target_arch = Arch.default;
    grader = none;
    name = "generator.sh";
  };
  args_spec = none;
}

abbrev lines : List String
lines = "#ST: 10\n" ∷ "1 # the smallest\n" ∷ "\n" ∷ "#COPY: small.txt\n" ∷ "#ST: 100\n" ∷ "5\n" ∷ []

abbrev numbers_of : Result (Reader ℕ) → List ℕ
numbers_of (ok r) = numbers (values r.subtasks)
numbers_of (err e) = []

three_testcases : numbers_of (read_file setting cents program program lines) ≡ 0 ∷ 1 ∷ 2 ∷ []
unfolding read_file ◌>>=◌ strip starts_with drop_chars before insert
three_testcases = refl

-- Static testcases before the first subtask belong to no subtask.
dropped_testcase :
    numbers_of (read_file setting cents program program ("#COPY: a.txt\n" ∷ lines)) ≡ 1 ∷ 2 ∷ 3 ∷ []
unfolding read_file ◌>>=◌ strip starts_with drop_chars before insert
dropped_testcase = refl

read_file-Numbered_example : Holds Numbered (read_file setting cents program program lines)
read_file-Numbered_example = read_file-Numbered setting cents program program lines
