-- ===== src/Detection/Nearest.antt =====
-- The folder that `find_task_dir` finds is the nearest one that has a format: python/detect_format.py.
use task_maker.Prelude.{
  ℕ, zero, suc, ◌≡◌, refl, ◌≤◌, ◌<◌, String, Bool, true, Option, none, some, Result, ok, err, Holds,
  Holds-ok, Holds-err, arith, value_error,
}
use task_maker.Sources.{World}
use task_maker.Detection.{
  TaskFormat, ioi, terry, tm, same_format, detect_format, settle, find_task_dir,
}

same_format-eq : (f g : TaskFormat) → same_format f g ≡ true → f ≡ g
same_format-eq ioi ioi h = refl
same_format-eq terry terry h = refl
same_format-eq tm tm h = refl
same_format-eq ioi terry h = absurd cc
same_format-eq ioi tm h = absurd cc
same_format-eq terry ioi h = absurd cc
same_format-eq terry tm h = absurd cc
same_format-eq tm ioi h = absurd cc
same_format-eq tm terry h = absurd cc

module _ (w : World) (is_dir : String → Bool) (join_path : String → String → String)
    (trimmed : String → String) where
  -- The folder `k` steps above.
  abbrev pub above : ℕ → String → String
  above zero d = trimmed d
  above (suc k) d = above k (w.dirname (trimmed d))

  -- The folder is at most `depth` steps above; no nearer folder has a format, and it has the format that
  -- is returned, or the search went as far as it may.
  abbrev pub IsNearest : ℕ → String → Option TaskFormat → String × Option TaskFormat → Type 0
  IsNearest depth task_dir hint (found, format) =
      (k : ℕ) × (k ≤ depth)
      × (found ≡ above k task_dir)
      × (detect_format w is_dir join_path trimmed found hint ≡ ok format)
      × ((j : ℕ)
          → j < k
          → detect_format w is_dir join_path trimmed (above j task_dir) hint ≡ ok none)
      × (format ≡ none → k ≡ depth)

  one_up :
      (depth : ℕ) (task_dir : String) (hint : Option TaskFormat)
      → detect_format w is_dir join_path trimmed (trimmed task_dir) hint ≡ ok none
      → (r : String × Option TaskFormat) → IsNearest depth (w.dirname (trimmed task_dir)) hint r
      → IsNearest (suc depth) task_dir hint r
  one_up depth task_dir hint n (found, format) (k, bound, eq, detected, nearer, far) =
      (suc k, omega (arith, bound), eq, detected, below, λ h. omega (arith, far h))
    where
      below :
          (j : ℕ)
          → j < suc k
          → detect_format w is_dir join_path trimmed (above j task_dir) hint ≡ ok none
      below zero l = n
      below (suc j) l = nearer j (omega (arith, l))

  here :
      (depth : ℕ) (task_dir : String) (hint format : Option TaskFormat)
      → detect_format w is_dir join_path trimmed (trimmed task_dir) hint ≡ ok format
      → (format ≡ none → zero ≡ depth)
      → IsNearest depth task_dir hint (trimmed task_dir, format)
  here depth task_dir hint format e far =
      (zero, omega arith, refl, e, (λ j l. absurd (omega (arith, l))), far)

  none-some : (f : TaskFormat) → some f ≡ none → ⊥
  none-some f h = absurd cc

  settle-Holds :
      (depth : ℕ) (task_dir : String) (hint : Option TaskFormat) (r : Result (Option TaskFormat))
      → detect_format w is_dir join_path trimmed (trimmed task_dir) hint ≡ r
      → (up : Result (String × Option TaskFormat))
      → Holds (IsNearest depth (w.dirname (trimmed task_dir)) hint) up
      → Holds
          (IsNearest (suc depth) task_dir hint)
          (settle w is_dir join_path trimmed (suc depth) (trimmed task_dir) up r)
  settle-Holds depth task_dir hint (err e) q up h = Holds-err _ e
  settle-Holds depth task_dir hint (ok (some f)) q up h =
      Holds-ok _ _ (here (suc depth) task_dir hint (some f) q (λ n. absurd (none-some f n)))
  settle-Holds depth task_dir hint (ok none) q up h = record {
    at = λ r p. one_up depth task_dir hint q r (h.at r p);
  }

  settle-Holds_zero :
      (task_dir : String) (hint : Option TaskFormat) (r : Result (Option TaskFormat))
      → detect_format w is_dir join_path trimmed (trimmed task_dir) hint ≡ r
      → (up : Result (String × Option TaskFormat))
      → Holds
          (IsNearest zero task_dir hint)
          (settle w is_dir join_path trimmed zero (trimmed task_dir) up r)
  settle-Holds_zero task_dir hint (err e) q up = Holds-err _ e
  settle-Holds_zero task_dir hint (ok (some f)) q up =
      Holds-ok _ _ (here zero task_dir hint (some f) q (λ n. refl))
  settle-Holds_zero task_dir hint (ok none) q up =
      Holds-ok _ _ (here zero task_dir hint none q (λ n. refl))

  -- When `find_task_dir` raises no error, the folder that it returns is the given one or at most
  -- `max_depth` steps above; no nearer folder has a format; and the format returned is the one of that
  -- folder, none only after all `max_depth` steps.
  pub find_task_dir-IsNearest :
      (max_depth : ℕ) (task_dir : String) (hint : Option TaskFormat)
      → Holds
          (IsNearest max_depth task_dir hint)
          (find_task_dir w is_dir join_path trimmed max_depth task_dir hint)
  unfolding find_task_dir
  find_task_dir-IsNearest zero task_dir hint =
      settle-Holds_zero task_dir hint _ refl (err (value_error ""))
  find_task_dir-IsNearest (suc max_depth) task_dir hint =
      settle-Holds max_depth task_dir hint _ refl _
        (find_task_dir-IsNearest max_depth (w.dirname (trimmed task_dir)) hint)
