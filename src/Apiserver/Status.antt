-- ===== src/Apiserver/Status.antt =====
-- pkg/apiserver/common/status.go: the states of a run.
use paddle_flow.Prelude.{Bool, false, true}

-- The `StatusRun…` constants; `no_status` is the empty string of a run that was not started.
pub data RunStatus : Type 0 where
  no_status initiating pending running succeeded failed terminating terminated : RunStatus

-- `IsRunFinalStatus` on the constants; its test on any text ignores case.
abbrev pub is_run_final_status : RunStatus → Bool
is_run_final_status failed = true
is_run_final_status succeeded = true
is_run_final_status terminated = true
is_run_final_status _ = false

abbrev pub is_terminating : RunStatus → Bool
is_terminating terminating = true
is_terminating _ = false

abbrev pub is_pending : RunStatus → Bool
is_pending pending = true
is_pending _ = false
