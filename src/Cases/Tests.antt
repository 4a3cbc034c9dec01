-- ===== src/Cases/Tests.antt =====
-- A small cases.gen, with numbers in hundredths.
use task_maker.Prelude.{
  ℕ, ◌+◌, ◌*◌, ◌-◌, ◌/◌, ◌≡◌, refl, ◌↔◌, inr, String, decimal, strip, starts_with, drop_chars, Bool,
  true, false, ◌&&◌, Option, none, some, List, [], ◌∷◌, lookup, insert, string_eq, nat_eq, leb,
  nat_beq, if◌then◌else◌, Result, ok, err, Holds, ◌>>=◌, arith,
}
use Prim.Native.Char.{Char, code}
use task_maker.Floats.{Floats}
use task_maker.Floats.Cents.{cents}
use task_maker.Ioi.{ScoreMode}
use task_maker.Sources.{system, World, Language, SourceFile, Arch, from_file}
use task_maker.Formats.{Constraint, Generator, Subtask, Numbers, accept}
use task_maker.Formats.Interval.{Compares, AboveLower, BelowUpper, accept_iff}
use task_maker.Cases.{Parser, Setting}
use task_maker.Cases.Limits.{less, parse_constraint}
use task_maker.Cases.Rows.{add_testcase}
use task_maker.Cases.Lines.{parse_cases}
use task_maker.Cases.Numbers.{numbers, WellFormed}
use task_maker.Cases.Consecutive.{parse_cases-WellFormed}
use task_maker.Cases.Reading.{Relates, parse_constraint-Relates}

abbrev digits : String → ℕ → Option ℕ
digits String.[] n = some (n * 100)
digits (String.◌∷◌ c s) n =
    let rest = digits s (n * 10 + (code c - 48)) in
    if leb 48 (code c) && leb (code c) 57 then rest else none

abbrev parse : String → Option ℕ
parse String.[] = none
parse (String.◌∷◌ c s) = digits (String.◌∷◌ c s) 0

abbrev pub whole : Floats ℕ
whole = record cents { parse = parse }

abbrev pub texts : Numbers ℕ
texts = record {
  sub = λ a b. a - b;
  huge = 1000000000000000000000;
  minus_huge = 0;
  str = λ a. decimal (a / 100);
  int_text = λ a. some (decimal (a / 100));
  is_integer = λ a. true;
}

abbrev cons_first : Char → List String → List String
cons_first c [] = String.◌∷◌ c "" ∷ []
cons_first c (w ∷ ws) = String.◌∷◌ c w ∷ ws

abbrev split : String → List String
split String.[] = "" ∷ []
split (String.◌∷◌ c s) =
    let rest = split s in if nat_beq (code c) 32 then "" ∷ rest else cons_first c rest

abbrev pub cpp : Language
cpp = record {
  name = "C++";
  need_compilation = true;
  need_unit_name = false;
  get_compilation_command = λ fs exe unit ev arch. ok (system, "c++" ∷ "-o" ∷ exe ∷ fs);
  source_extensions = ".cpp" ∷ [];
  get_dependencies = λ p. [];
  exe_name = λ p w. w;
}

abbrev pub world : World
world = record {
  exists = λ p. true;
  is_file = λ p. true;
  is_abs = λ p. false;
  glob = λ p. [];
  contents = λ p. [];
  basename = λ p. p;
  dirname = λ p. "gen";
  root = λ p. p;
  extension = λ p. ".cpp";
  find_executable = λ p. none;
  words = λ s. ok (split s);
}

abbrev pub setting : Setting
setting = record {
  world = world;
  languages = record { languages = cpp ∷ []; ext_cache = (".cpp", cpp) ∷ [] };
  task_name = "easy";
  copy_compiled = false;
}

abbrev sample : List String
sample =
    ":GEN default gen/gen.cpp N" ∷ ":VAL default gen/val.cpp" ∷ ":CONSTRAINT $N <= 10" ∷ ""
    ∷ ":SUBTASK 40" ∷ "3" ∷ "  10" ∷ "# the larger ones" ∷ ":SUBTASK 60 large" ∷ ":COPY big.txt"
    ∷ "7" ∷ []

abbrev numbers_of : Result (Parser ℕ) → List ℕ
numbers_of (ok p) = numbers p.subtasks
numbers_of (err e) = []

four_testcases : numbers_of (parse_cases setting whole texts sample) ≡ 0 ∷ 1 ∷ 2 ∷ 3 ∷ []
unfolding parse_cases ◌>>=◌ strip starts_with drop_chars insert lookup from_file
four_testcases = refl

parse_cases-WellFormed_example : Holds WellFormed (parse_cases setting whole texts sample)
parse_cases-WellFormed_example = parse_cases-WellFormed whole texts setting sample

abbrev at_most_ten : Constraint ℕ
at_most_ten = record {
  name = "N";
  lower_bound = none;
  upper_bound = some 1000;
  more_or_equal = false;
  less_or_equal = true;
}

abbrev pub program : SourceFile
program = record {
  path = "gen/gen.cpp";
  unit_name = "easy";
  exe_name = "gen_default";
  dependencies = [];
  language = cpp;
  write_bin_to = none;
  target_arch = Arch.default;
  grader = none;
  name = "gen.cpp";
}

abbrev pub generator : Generator
generator = record { name = "default"; source_file = program; args_spec = some ("N" ∷ []) }

abbrev pub subtask : Subtask ℕ
subtask = record {
  name = "";
  description = "";
  score_mode = ScoreMode.min;
  max_score = 4000;
  testcases = [];
  constraints = at_most_ten ∷ [];
}

abbrev parser : Parser ℕ
parser = record {
  subtasks = subtask ∷ [];
  generators = [];
  validators = [];
  constraints = at_most_ten ∷ [];
  current_gen = some generator;
  current_val = none;
  default_gen = none;
  default_val = none;
  tc_num = 0;
  st_count = 1;
  task_default_gen = none;
  task_default_val = none;
}

abbrev is_ok {ℓ} : {A : Type ℓ} → Result A → Bool
is_ok (ok a) = true
is_ok (err e) = false

seven_fits : is_ok (add_testcase whole texts 7 ("7" ∷ []) generator none parser) ≡ true
unfolding add_testcase ◌>>=◌ insert lookup starts_with
seven_fits = refl

eleven_does_not : is_ok (add_testcase whole texts 7 ("11" ∷ []) generator none parser) ≡ false
unfolding add_testcase ◌>>=◌ insert lookup starts_with
eleven_does_not = refl

compares : (a b : ℕ) → Compares whole a b
compares a b = record { lt_iff = ground arith; le_iff = ground arith }

accept_iff_example :
    (accept whole at_most_ten 700 ≡ true)
    ↔ (AboveLower whole at_most_ten 700 × BelowUpper whole at_most_ten 700)
accept_iff_example = accept_iff whole at_most_ten 700 tt (compares 700 1000, compares 1000 700)

no_number : (w : String) → starts_with w "$" ≡ true → parse w ≡ none
unfolding starts_with
no_number String.[] h = refl
no_number (String.◌∷◌ c w) h = grind arith

parsed : parse_constraint whole texts 3 ("$N" ∷ "<=" ∷ "10" ∷ []) ≡ ok at_most_ten
unfolding parse_constraint ◌>>=◌
parsed = refl

parse_constraint-Relates_example :
    (accept whole at_most_ten 700 ≡ true) ↔ Relates whole texts less true 700 1000
parse_constraint-Relates_example =
    parse_constraint-Relates whole texts no_number 700 3 "$N" "10" true "<=" less at_most_ten refl
      (inr refl) parsed tt (compares 700 1000, compares 1000 700)

-- The operator of a number on the left is not looked at: `42 > $N` is read as `42 < $N`.
abbrev upside_down : Constraint ℕ
upside_down = record {
  name = "N";
  lower_bound = some 4200;
  upper_bound = none;
  more_or_equal = false;
  less_or_equal = false;
}

misread : parse_constraint whole texts 3 ("42" ∷ ">" ∷ "$N" ∷ []) ≡ ok upside_down
unfolding parse_constraint ◌>>=◌
misread = refl
