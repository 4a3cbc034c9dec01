-- ===== src/Detection.antt =====
-- Which format a task has, and in which folder it is: python/detect_format.py.
pub mod Nearest
mod Tests
use task_maker.Prelude.{
  ℕ, zero, suc, String, ◌+s◌, Bool, true, false, not, ◌&&◌, ◌||◌, Option, none, some, List, [], ◌∷◌,
  ◌++◌, if◌then◌else◌, Result, ok, err, value_error,
}
use task_maker.Sources.{World}

pub data TaskFormat : Type 0 where
  ioi terry tm : TaskFormat

abbrev pub same_format : TaskFormat → TaskFormat → Bool
same_format ioi ioi = true
same_format terry terry = true
same_format tm tm = true
same_format _ _ = false

-- f in formats
abbrev pub among : TaskFormat → List TaskFormat → Bool
among f [] = false
among f (g ∷ formats) = same_format f g || among f formats

abbrev when : Bool → TaskFormat → List TaskFormat
when true f = f ∷ []
when false f = []

-- `is_dir` is os.path.isdir, `join_path` os.path.join, and `trimmed` leaves out a slash at the end.
module _ (w : World) (is_dir : String → Bool) (join_path : String → String → String)
    (trimmed : String → String) where
  unfoldable pub is_tm_format : String → Bool
  is_tm_format task_dir = w.exists (join_path (join_path task_dir "gen") "cases.gen")

  unfoldable pub is_ioi_format : String → Bool
  is_ioi_format task_dir =
      let gen = join_path task_dir "gen" in
      if is_dir gen
      then w.exists (join_path gen "GEN") && not (w.exists (join_path gen "cases.gen"))
      else is_dir (join_path task_dir "input")

  unfoldable pub is_terry_format : String → Bool
  is_terry_format task_dir = is_dir (join_path task_dir "managers")

  unfoldable pub valid_formats : String → List TaskFormat
  unfolding is_tm_format is_ioi_format is_terry_format
  valid_formats task_dir =
      when (is_tm_format task_dir) tm
      ++ (when (is_ioi_format task_dir) ioi ++ when (is_terry_format task_dir) terry)

  -- By the hint and the formats that fit.
  abbrev pub chosen : Option TaskFormat → List TaskFormat → Result (Option TaskFormat)
  chosen hint [] = ok none
  chosen none (f ∷ formats) = ok (some f)
  chosen (some h) (f ∷ formats) =
      if among h (f ∷ formats)
      then ok (some h)
      else err (value_error "Non compatible task format {}, valid formats are {}")

  unfoldable pub detect_format : String → Option TaskFormat → Result (Option TaskFormat)
  unfolding valid_formats
  detect_format task_dir hint = chosen hint (valid_formats task_dir)

  -- What is done with the format of a folder, `up` being the search in the folder above.
  abbrev pub settle :
      ℕ
      → String
      → Result (String × Option TaskFormat)
      → Result (Option TaskFormat)
      → Result (String × Option TaskFormat)
  settle depth task_dir up (err e) = err e
  settle depth task_dir up (ok (some f)) = ok (task_dir, some f)
  settle zero task_dir up (ok none) = ok (task_dir, none)
  settle (suc depth) task_dir up (ok none) = up

  unfoldable pub find_task_dir :
      ℕ → String → Option TaskFormat → Result (String × Option TaskFormat)
  unfolding detect_format
  find_task_dir zero task_dir hint =
      settle zero (trimmed task_dir) (err (value_error "")) (detect_format (trimmed task_dir) hint)
  find_task_dir (suc max_depth) task_dir hint =
      settle (suc max_depth) (trimmed task_dir)
        (find_task_dir max_depth (w.dirname (trimmed task_dir)) hint)
        (detect_format (trimmed task_dir) hint)
