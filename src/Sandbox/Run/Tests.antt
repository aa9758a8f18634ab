-- ===== src/Sandbox/Run/Tests.antt =====
-- backend/services/code_sandbox_execution_service.py: runs and recovery of concrete executions.
use goat_ai.Prelude.{◌≡◌, ◌≤◌, ◌⊎◌, refl, String, true, false, none, some, List, [], ◌∷◌}
use Prim.Native.String.{len}
use goat_ai.Prelude.Text.{append_text, join}
use goat_ai.Prelude.Json.{pos}
use goat_ai.Prelude.Table.{fetch}
use goat_ai.Sandbox.Store.{Outcome, finish_row, start_row}
use goat_ai.Sandbox.Calls.{fails}
use goat_ai.Sandbox.Output.{fresh, text, marker, append}
use goat_ai.Sandbox.Output.Bounds.{feed, output_kept, output_cut_silently}
use goat_ai.Sandbox.Run.{
  ProviderResult, exhausted, Stream, Setting, log_chunk, result, execute_code_sandbox_execution,
}
use goat_ai.Sandbox.Run.Ends.{Begun, Ended, execute-Ended}
use goat_ai.Sandbox.Recovery.{
  recover_queued_code_sandbox_executions, reap_abandoned_running_code_sandbox_executions,
}
use goat_ai.Sandbox.Recovery.Startup.{recover-Begun, reap-settles}
use goat_ai.Sandbox.Tests.{run_id, accepted, outcome, one_queued}
use goat_ai.Sandbox.{running, failed, out, err, Database, by_id, is_terminal_status}

abbrev texts : List String
texts = "ab" ∷ "cdé" ∷ "z" ∷ []

-- The third byte of "cdé" that fits is half of "é".
cut_in_a_character : text (feed (fresh 5) texts).0 ≡ "abcd\n[output truncated]"
unfolding feed append append_text
cut_in_a_character = refl

output_kept_example :
    ((p : String) × (rest : String) × (append_text p rest ≡ join texts)
      × (len p ≤ 5)
      × ((text (feed (fresh 5) texts).0 ≡ p)
          ⊎ (text (feed (fresh 5) texts).0 ≡ append_text p marker)))
    × (len (join texts) ≤ 5 → text (feed (fresh 5) texts).0 ≡ join texts)
output_kept_example = output_kept 5 texts

output_cut_silently_example : text (feed (fresh (len "ab")) ("ab" ∷ "cd" ∷ [])).0 ≡ "ab"
output_cut_silently_example = output_cut_silently "ab" ("cd" ∷ [])

abbrev done : ProviderResult
done = record {
  exit_code = some (pos 0);
  stdout = "";
  stderr = "warn";
  timed_out = false;
  cancelled = false;
  error_detail = none;
  output_files = [];
}

-- The provider writes, another process fails the execution, and the provider still finishes.
abbrev stream : Stream
stream = record {
  items =
      ([], log_chunk out 3 "hello")
      ∷ (fails run_id outcome ∷ [], log_chunk err 4 "oops")
      ∷ ([], result done)
      ∷ [];
  last_calls = [];
  ending = exhausted;
}

abbrev setting : Setting
setting = record {
  cancel_first = false;
  cancel_last = false;
  provider_name = "docker";
  run_stream = λ r. stream;
  max_output_bytes = 4;
  cancelled_at = 2;
  started_at = 2;
  stdout_at = 5;
  stderr_at = 5;
  ended_at = 6;
}

abbrev one_running : Database
one_running = record { executions = start_row 2 "docker" accepted ∷ []; events = []; logs = [] }

execute-Ended_example : Ended run_id (execute_code_sandbox_execution run_id setting one_queued)
unfolding fetch
execute-Ended_example = execute-Ended run_id setting one_queued accepted refl refl

abbrev settings : String → Setting
settings id = setting

recover-Begun_example : Begun run_id (recover_queued_code_sandbox_executions settings one_queued).0
unfolding fetch
recover-Begun_example = recover-Begun settings run_id one_queued accepted refl refl

reap-settles_example :
    let r = start_row 2 "docker" accepted in
    let after = (reap_abandoned_running_code_sandbox_executions 9 one_running).0 in
    (r.status ≡ running
      → (o : Outcome) × (fetch by_id run_id after.executions ≡ some (finish_row failed o r)))
    × (is_terminal_status r.status ≡ true → fetch by_id run_id after.executions ≡ some r)
unfolding fetch
reap-settles_example = reap-settles 9 run_id one_running (start_row 2 "docker" accepted) refl
