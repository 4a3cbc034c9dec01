-- ===== src/Detection/Tests.antt =====
-- A folder that has gen/cases.gen, and one inside it that has nothing.
use task_maker.Prelude.{
  ◌≡◌, refl, String, ◌+s◌, Bool, none, some, string_eq, ◌==◌, if◌then◌else◌, ok, Holds,
}
use task_maker.Sources.{World}
use task_maker.Cases.Tests.{world}
use task_maker.Detection.{tm, find_task_dir}
use task_maker.Detection.Nearest.{IsNearest, find_task_dir-IsNearest}

abbrev folders : World
folders = record world {
  exists = λ p. p == "task/gen/cases.gen";
  dirname = λ p. if p == "task/sol" then "task" else "";
}

abbrev is_dir : String → Bool
is_dir p = p == "task/gen"

abbrev join_path : String → String → String
join_path p q = p +s ("/" +s q)

abbrev trimmed : String → String
trimmed p = p

found_above :
    find_task_dir folders is_dir join_path trimmed 2 "task/sol" none ≡ ok ("task", some tm)
unfolding find_task_dir
found_above = refl

find_task_dir-IsNearest_example :
    Holds
      (IsNearest folders is_dir join_path trimmed 2 "task/sol" none)
      (find_task_dir folders is_dir join_path trimmed 2 "task/sol" none)
find_task_dir-IsNearest_example =
    find_task_dir-IsNearest folders is_dir join_path trimmed 2 "task/sol" none
