-- ===== src/Remote/Tests.antt =====
-- An execution that stores its output, and what the frontend delivers for it.
use task_maker.Prelude.{◌+◌, ◌≡◌, refl, true, false, none, List, [], ◌∷◌, lookup, nat_eq}
use task_maker.Remote.{
  ExecutionResult, Execution, Tracked, Delivered, started, result, stdout, stderr, success, deliver,
  deliver_all,
}
use task_maker.Remote.Delivery.{completions, completions-deliver, completions-deliver_all_once}
use task_maker.Remote.Pool.{running-deliver_all}

abbrev fine : ExecutionResult
fine = record { status = success; signal = 0; return_code = 0; error = ""; was_killed = false }

abbrev checking : Execution
checking = record {
  ident = 7;
  store_stdout = true;
  store_stderr = true;
  store_stdout_bytes = false;
  store_stderr_bytes = false;
  stdout = none;
  stderr = none;
  stdout_bytes = none;
  stderr_bytes = none;
  result = none;
  on_done_cb = true;
  on_start_cb = true;
  on_skip_cb = false;
}

abbrev fresh : Tracked
fresh = record {
  pool = record { running = (3, 50) ∷ []; stopped = false; printed = [] };
  execution = checking;
  calls = [];
}

abbrev early_result : List Delivered
early_result = started 60 ∷ result fine ∷ stderr "" ∷ stdout "1.0" ∷ []

result_is_not_enough :
    completions (deliver_all (started 60 ∷ result fine ∷ stderr "" ∷ []) fresh).calls ≡ 0
unfolding deliver_all deliver completions
result_is_not_enough = refl

completions-deliver_all_once_example :
    completions (deliver_all early_result fresh).calls ≡ completions [] + 1
completions-deliver_all_once_example =
    completions-deliver_all_once early_result fresh refl refl (record {
      of_result = refl;
      of_stdout = refl;
      of_stderr = refl;
      of_stdout_bytes = refl;
      of_stderr_bytes = refl;
      of_skipped = refl;
    })

completions-deliver_example : completions (deliver (stdout "1.0") fresh).calls ≡ 0
unfolding deliver completions
completions-deliver_example = completions-deliver (stdout "1.0") fresh refl

running-deliver_all_example : lookup 7 (deliver_all early_result fresh).pool.running ≡ none
running-deliver_all_example = running-deliver_all early_result fresh 7
