-- ===== src/Agentor/Executor.antt =====
-- agentor/agentor_runtime/executor.py: `run`, `resume` and the loop over the nodes.
use conexus.Prelude.{
  ℕ, suc, Bool, true, false, Option, none, some, List, [], ◌∷◌, ◌++◌, length, if◌then◌else◌,
}
use conexus.Text.{Text, codes}
use conexus.Clock.{DateTime}
use conexus.Agentor.{
  AgentRun, Exit, GraphNode, GraphState, Handled, HumanApprovalCheckpoint, NodeOutcome, NodeStatus,
  RunStatus, approval_rejected, approval_required, awaiting_approval, completed, done, drop, failed,
  handler_failed, handler_required, raised_required, raised_rejected, Readings, node_started,
  node_finished, node_paused, call_started, call_finished, index, is_terminal, node_completed,
  node_failed, node_running, raised, rejected, returned, running, status_eq,
}

abbrev pub outcome_of {ℓ} :
    {S : Type ℓ} → Readings → ℕ → GraphNode S → NodeStatus → Option Text → NodeOutcome
outcome_of clock k node s e = record {
  node_id = node.id;
  node_name = node.name;
  status = s;
  started_at = clock (node_started k);
  finished_at = some (clock (node_finished k));
  error = e;
}

module _ {ℓ} {S : Type ℓ} where
  -- A checkpoint in the state becomes the run's, unless it has one.
  unfoldable pub promote_checkpoint : GraphState S → AgentRun S → AgentRun S
  promote_checkpoint s run = elim s.pending_checkpoint [
    | none ↦ record run { state = s }
    | some c ↦ elim run.checkpoint [
      | some _ ↦ record run { state = s }
      | none ↦ record run { state = record s { pending_checkpoint = none }; checkpoint = some c }
    ]
  ]

  -- An exception leaves the loop.
  abbrev pub go_on : Exit × AgentRun S → (AgentRun S → Exit × AgentRun S) → Exit × AgentRun S
  go_on (done, run) k = k run
  go_on (approval_required, run) k = (approval_required, run)
  go_on (approval_rejected reason, run) k = (approval_rejected reason, run)
  go_on (handler_failed text, run) k = (handler_failed text, run)
  go_on (handler_required, run) k = (handler_required, run)

module _ {ℓ} {S : Type ℓ} (clock : Readings) (auto_approve : Bool) where
  abbrev pub logged : GraphNode S → NodeStatus → Option Text → AgentRun S → AgentRun S
  logged node s e run = record run {
    node_outcomes = run.node_outcomes ++ outcome_of clock (length run.node_outcomes) node s e ∷ [];
  }

  -- A node that ends well.
  abbrev pub completes : ℕ → GraphNode S → AgentRun S → Exit × AgentRun S
  completes i node run = (
    done,
    record (logged node node_completed none run) { checkpoint = none; next_node_index = suc i },
  )

  -- What the checkpoint that is installed after the handler asks for.
  unfoldable pub after_checkpoint :
      ℕ → GraphNode S → Option HumanApprovalCheckpoint → AgentRun S → Exit × AgentRun S
  after_checkpoint i node none run = completes i node run
  after_checkpoint i node (some c) run = elim c.approved [
    | some true ↦ completes i node run
    | some false ↦ (approval_rejected c.reviewer_note, logged node node_running none run)
    | none ↦ if auto_approve then completes i node run else (
      approval_required,
      record (logged node node_completed none run) {
        status = awaiting_approval;
        paused_at = some (clock (node_paused (length run.node_outcomes)));
        next_node_index = suc i;
      },
    )
  ]

  -- What follows the handler.
  unfoldable pub after_handler : ℕ → GraphNode S → AgentRun S → Handled S → Exit × AgentRun S
  unfolding promote_checkpoint after_checkpoint
  after_handler i node run (raised text s) =
      (handler_failed text, logged node node_failed (some text) (record run { state = s }))
  after_handler i node run (raised_required s) =
      (handler_required, logged node node_running none (record run { state = s }))
  after_handler i node run (raised_rejected reason s) =
      (approval_rejected reason, logged node node_running none (record run { state = s }))
  after_handler i node run (returned s) =
      let installed = promote_checkpoint s run in
      after_checkpoint i node installed.checkpoint installed

  -- The body of the loop of `_execute_nodes`, at the node's index.
  unfoldable pub execute_node : ℕ → GraphNode S → AgentRun S → Exit × AgentRun S
  unfolding after_handler
  execute_node i node run =
      after_handler i node (record run { next_node_index = i }) (node.handler run.state)

  unfoldable pub execute_nodes :
      List (GraphNode S) → List (GraphNode S) → AgentRun S → Exit × AgentRun S
  unfolding index execute_node
  execute_nodes all [] run = (done, run)
  execute_nodes all (node ∷ nodes) run =
      if is_terminal run.status
      then (done, run)
      else go_on (execute_node (index node all) node run) (λ run'. execute_nodes all nodes run')

abbrev pub rejection_text : Option Text → Text
rejection_text none = codes "Workflow rejected by reviewer: None"
rejection_text (some text) = codes "Workflow rejected by reviewer: " ++ text

module _ {ℓ} {S : Type ℓ} where
  abbrev pub with_status : RunStatus → Option Text → AgentRun S → AgentRun S
  with_status s e run = record run { status = s; error = e }

  -- The `except` and `else` clauses of `run` and `resume`.
  unfoldable pub settle : Exit × AgentRun S → AgentRun S
  settle (done, run) =
      if status_eq run.status running then record run { status = completed } else run
  settle (approval_required, run) = run
  settle (handler_required, run) = run
  settle (approval_rejected reason, run) = with_status rejected (some (rejection_text reason)) run
  settle (handler_failed text, run) = with_status failed (some text) run

  -- `finished_at` is not stamped while a decision is awaited.
  unfoldable pub stamp_finished : DateTime → AgentRun S → AgentRun S
  stamp_finished now run =
      if status_eq run.status awaiting_approval then run else record run { finished_at = some now }

  abbrev pub begun : DateTime → AgentRun S → AgentRun S
  begun now r = record r {
    status = running;
    started_at = some now;
    finished_at = none;
    error = none;
    next_node_index = 0;
    paused_at = none;
  }

  unfoldable pub run_nodes : Readings → Bool → List (GraphNode S) → AgentRun S → AgentRun S
  unfolding execute_nodes settle stamp_finished
  run_nodes clock auto_approve nodes r =
      stamp_finished (clock call_finished)
        (settle (execute_nodes clock auto_approve nodes nodes (begun (clock call_started) r)))

  abbrev pub continued : AgentRun S → AgentRun S
  continued r = record r {
    checkpoint = none;
    status = running;
    paused_at = none;
    error = none;
    finished_at = none;
  }

-- How `resume` ends.
pub data Resumed {ℓ} (S : Type ℓ) : Type ℓ where
  resumed : AgentRun S → Resumed S
  still_required : HumanApprovalCheckpoint → Resumed S
  value_error : Text → Resumed S

module _ {ℓ} {S : Type ℓ} where
  unfoldable pub resume_decided :
      Readings → Bool → List (GraphNode S) → HumanApprovalCheckpoint → AgentRun S → Resumed S
  unfolding execute_nodes settle stamp_finished
  resume_decided clock auto_approve nodes c r = elim c.approved [
    | none ↦ still_required c
    | some false ↦
        resumed (record (with_status rejected (some (rejection_text c.reviewer_note)) r) {
          finished_at = some (clock call_finished);
        })
    | some true ↦ resumed (
        stamp_finished (clock call_finished) (
          settle
            (execute_nodes clock auto_approve nodes (drop r.next_node_index nodes) (continued r))))
  ]

  unfoldable pub resume : Readings → Bool → List (GraphNode S) → AgentRun S → Resumed S
  unfolding resume_decided
  resume clock auto_approve nodes r =
      if status_eq r.status awaiting_approval
      then elim r.checkpoint [
        | none ↦ value_error (codes "Cannot resume: missing checkpoint")
        | some c ↦ resume_decided clock auto_approve nodes c r
      ]
      else value_error (codes "Can only resume a run awaiting approval")
