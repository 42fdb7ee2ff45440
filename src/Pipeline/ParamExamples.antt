-- ===== src/Pipeline/ParamExamples.antt =====
-- A step that refers to a parameter of the step that it waits for (pkg/pipeline/common.go).
use paddle_flow.Prelude.{
  All, NoDup, Option, Text, [], arith, codes, false, keys, lookup, none, refl, text_eq, true, ◌||◌,
  ◌∷◌, ◌≡◌,
}
use paddle_flow.Schema.Workflow.{text, get_deps}
use paddle_flow.Pipeline.Topology.{Steps, sorted, topological_sort}
use paddle_flow.Pipeline.GraphExamples.{as_listed, as_listed-Visits}
use paddle_flow.Pipeline.Template.{find_refs}
use paddle_flow.Pipeline.Params.{DictParam, Solver, check_param_value, field_command, ok}
use paddle_flow.Pipeline.Params.Agreement.{Agree, check_param_value-Agree, replacing}
use paddle_flow.Pipeline.Params.Ending.{Ended, EndedWith}
use paddle_flow.Pipeline.Params.Scheduled.{check_param_value-Ended}
use paddle_flow.Pipeline.Params.Sight.{IsInScope}
use paddle_flow.Pipeline.Params.Scope.{check_param_value-IsInScope}
use paddle_flow.Pipeline.Solve.{check_steps}
use paddle_flow.Pipeline.Solve.Keeping.{lacks_step, lacks_dep}
use paddle_flow.Pipeline.Solve.Total.{check_steps-Ended}

abbrev pub train_and_report : Steps
train_and_report =
    (
      codes "train",
      record {
        parameters = (codes "rate", text (codes "0.1")) ∷ [];
        command = codes "train {{ rate }}";
        deps = [];
        artifacts = record { input = []; output = [] };
        env = [];
        image = [];
      },
    )
    ∷ (
      codes "report",
      record {
        parameters = [];
        command = codes "show {{train.rate}} of {{ PF_RUN_ID }}";
        deps = codes "train";
        artifacts = record { input = []; output = [] };
        env = [];
        image = [];
      },
    )
    ∷ []

abbrev pub no_dict : Text → Option DictParam
no_dict t = none

abbrev solver : Solver
solver = record {
  steps = train_and_report;
  sys_params = (codes "PF_RUN_ID", codes "run-7") ∷ [];
  need_replace = true;
  decode = no_dict;
}

abbrev command : Text
command = codes "show {{train.rate}} of {{ PF_RUN_ID }}"

resolved_command :
    check_param_value 3 solver (codes "report") (text command) field_command
    ≡ ok (text (codes "show 0.1 of run-7"))
unfolding check_param_value find_refs text_eq
resolved_command = refl

check_param_value-IsInScope_example :
    All (IsInScope solver (codes "report") field_command) (find_refs 0 command)
check_param_value-IsInScope_example =
    check_param_value-IsInScope 3 solver (codes "report") command field_command
      (text (codes "show 0.1 of run-7")) resolved_command

check_param_value-Agree_example :
    Agree
      (check_param_value 3 (replacing solver false) (codes "report") (text command) field_command)
      (check_param_value 3 (replacing solver true) (codes "report") (text command) field_command)
check_param_value-Agree_example =
    check_param_value-Agree 3 solver (codes "report") (text command) field_command

steps-NoDup : NoDup (keys train_and_report)
steps-NoDup = ground arith

steps_sorted :
    topological_sort as_listed train_and_report ≡ sorted (codes "train" ∷ codes "report" ∷ [])
unfolding topological_sort text_eq
steps_sorted = refl

check_param_value-Ended_example :
    Ended (check_param_value 3 solver (codes "report") (text command) field_command)
check_param_value-Ended_example =
    check_param_value-Ended as_listed as_listed-Visits train_and_report steps-NoDup
      (codes "train" ∷ codes "report" ∷ []) steps_sorted solver (λ step st f. (st, f, refl)) 3
      (omega arith) (codes "report") (text command) field_command

check_steps-Ended_example :
    EndedWith
      (lacks_step train_and_report (codes "train" ∷ codes "report" ∷ [])
        || lacks_dep train_and_report train_and_report)
      (check_steps 3 (codes "train" ∷ codes "report" ∷ []) solver)
check_steps-Ended_example =
    check_steps-Ended as_listed as_listed-Visits solver steps-NoDup
      (codes "train" ∷ codes "report" ∷ []) steps_sorted (codes "train" ∷ codes "report" ∷ [])

nothing_lacks :
    (lacks_step train_and_report (codes "train" ∷ codes "report" ∷ [])
      || lacks_dep train_and_report train_and_report)
    ≡ false
unfolding get_deps text_eq lookup
nothing_lacks = refl
