-- ===== src/Tests/Workflows.antt =====
-- A workflow of two nodes: the first asks for an approval, the second counts.
use conexus.Prelude.{ℕ, ◌+◌, ◌≡◌, refl, true, false, ◌⊎◌, none, some, List, [], ◌∷◌}
use conexus.Text.{codes}
use conexus.Agentor.{
  pending, awaiting_approval, HumanApprovalCheckpoint, GraphState, Handled, returned,
  raised_required, Readings, running, GraphNode, AgentRun, node_eq, index,
}
use conexus.Agentor.Executor.{
  promote_checkpoint, after_checkpoint, after_handler, execute_node, execute_nodes, settle,
  stamp_finished, run_nodes, resumed, resume,
}
use conexus.Agentor.Going.{Waiting}
use conexus.Agentor.Running.{Over, Escaped, RaisesRequired, run_ends}
use conexus.Agentor.Resuming.{IsDistinct, approve}
use conexus.Agentor.Untimed.{untimed, approve_and_resume}
use conexus.Tests.{program, noon}

workflows : Unit {0}
unfolding program node_eq index promote_checkpoint after_checkpoint after_handler execute_node
    execute_nodes settle stamp_finished run_nodes
workflows = tt

abbrev question : HumanApprovalCheckpoint
question = record {
  prompt = codes "Publish?";
  proposed_action = codes "{}";
  approved = none;
  reviewer_note = none;
  decided_at = none;
}

abbrev ask : GraphState ℕ → Handled ℕ
ask s = returned (record s { pending_checkpoint = some question })

abbrev count : GraphState ℕ → Handled ℕ
count s = returned (record s { entries = s.entries + 1 })

abbrev asking : GraphNode ℕ
asking = record {
  id = codes "ask";
  name = codes "Ask";
  handler_id = 1;
  handler = ask;
  description = [];
}

abbrev counting : GraphNode ℕ
counting = record {
  id = codes "count";
  name = codes "Count";
  handler_id = 2;
  handler = count;
  description = [];
}

abbrev nodes : List (GraphNode ℕ)
nodes = asking ∷ counting ∷ []

nodes-IsDistinct : IsDistinct nodes
unfolding workflows
nodes-IsDistinct = (refl, (refl, tt))

abbrev new_run : AgentRun ℕ
new_run = record {
  id = codes "r1";
  workflow_name = codes "publish";
  status = pending;
  state = record { entries = 0; pending_checkpoint = none };
  node_outcomes = [];
  checkpoint = none;
  next_node_index = 0;
  paused_at = none;
  started_at = none;
  finished_at = none;
  error = none;
}

abbrev steady : Readings
steady reading = noon

abbrev later : Readings
later reading = record noon { day = 1; month = 3 }

counted_once : (run_nodes steady true nodes new_run).state.entries ≡ 1
unfolding workflows
counted_once = refl

run_ends_example :
    (Over noon (run_nodes steady false nodes new_run)
      ⊎ Waiting (run_nodes steady false nodes new_run))
    ⊎ (RaisesRequired nodes × Escaped noon (run_nodes steady false nodes new_run))
run_ends_example = run_ends steady false nodes new_run refl

-- A handler that raises an ApprovalRequiredError itself.
abbrev straying : GraphNode ℕ
straying = record asking { handler = raised_required }

strayed : (run_nodes steady false (straying ∷ []) new_run).status ≡ running
unfolding workflows
strayed = refl

paused : (run_nodes steady false nodes new_run).status ≡ awaiting_approval
unfolding workflows
paused = refl

approve_and_resume_example :
    (r : AgentRun ℕ) × (resume later true nodes
        (approve noon none question (run_nodes steady false nodes new_run))
      ≡ resumed r)
    × (untimed noon r ≡ untimed noon (run_nodes later true nodes new_run))
approve_and_resume_example =
    approve_and_resume noon steady later later nodes new_run question noon none nodes-IsDistinct
      refl paused
