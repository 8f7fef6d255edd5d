-- ===== src/Agentor.antt =====
-- agentor/agentor_runtime/models.py, and executor.py in Executor: a workflow is a list of nodes whose handlers
-- share a state; a checkpoint pauses the run until a reviewer decides. Handlers are parameters. The
-- entry `_checkpoint` of the state is kept apart from the rest, which is any type `S`. The
-- readings of the clock in a call are an input.
pub mod Executor
pub mod Going
pub mod Running
pub mod Resuming
pub mod Untimed
use conexus.Prelude.{
  ℕ, zero, suc, ◌+◌, Bool, true, false, ◌&&◌, Option, none, some, List, [], ◌∷◌, ◌++◌, ◌==◌,
  if◌then◌else◌,
}
use conexus.Text.{Text, codes, text_eq}
use conexus.Clock.{DateTime}

pub data RunStatus : Type 0 where
  pending running awaiting_approval approved rejected completed failed : RunStatus

pub data NodeStatus : Type 0 where
  node_pending node_running node_completed node_failed node_skipped : NodeStatus

pub record HumanApprovalCheckpoint : Type 0 where
  pub prompt : Text
  pub proposed_action : Text
  pub approved : Option Bool
  pub reviewer_note : Option Text
  pub decided_at : Option DateTime

-- `approve` and `reject`
abbrev pub decide :
    Bool → DateTime → Option Text → HumanApprovalCheckpoint → HumanApprovalCheckpoint
decide verdict now note c = record c {
  approved = some verdict;
  reviewer_note = note;
  decided_at = some now;
}

pub record GraphState {ℓ} (S : Type ℓ) : Type ℓ where
  pub entries : S
  pub pending_checkpoint : Option HumanApprovalCheckpoint

-- A handler returns, or raises an exception with this text, an ApprovalRequiredError, or an
-- ApprovalRejectedError with its note; it may have changed the state before.
pub data Handled {ℓ} (S : Type ℓ) : Type ℓ where
  returned : GraphState S → Handled S
  raised : Text → GraphState S → Handled S
  raised_required : GraphState S → Handled S
  raised_rejected : Option Text → GraphState S → Handled S

-- `handler_id` tells handlers apart, as Python compares functions by identity.
pub record GraphNode {ℓ} (S : Type ℓ) : Type ℓ where
  pub id : Text
  pub name : Text
  pub handler_id : ℕ
  pub handler : GraphState S → Handled S
  pub description : Text

pub record NodeOutcome : Type 0 where
  pub node_id : Text
  pub node_name : Text
  pub status : NodeStatus
  pub started_at : DateTime
  pub finished_at : Option DateTime
  pub error : Option Text

pub record AgentRun {ℓ} (S : Type ℓ) : Type ℓ where
  pub id : Text
  pub workflow_name : Text
  pub status : RunStatus
  pub state : GraphState S
  pub node_outcomes : List NodeOutcome
  pub checkpoint : Option HumanApprovalCheckpoint
  pub next_node_index : ℕ
  pub paused_at : Option DateTime
  pub started_at : Option DateTime
  pub finished_at : Option DateTime
  pub error : Option Text

-- The clock readings of a call: its start and its end, and for a node, by the number of the outcomes
-- before its own, its start, its end and the pause after it.
pub data Reading : Type 0 where
  call_started call_finished : Reading
  node_started node_finished node_paused : ℕ → Reading

abbrev pub Readings : Type 0
Readings = Reading → DateTime

-- The exceptions that leave `_execute_nodes`, or none. An ApprovalRequiredError is the loop's own or
-- a handler's.
pub data Exit : Type 0 where
  done approval_required handler_required : Exit
  approval_rejected : Option Text → Exit
  handler_failed : Text → Exit

abbrev pub status_eq : RunStatus → RunStatus → Bool
status_eq running running = true
status_eq awaiting_approval awaiting_approval = true
status_eq completed completed = true
status_eq failed failed = true
status_eq rejected rejected = true
status_eq pending pending = true
status_eq approved approved = true
status_eq _ _ = false

abbrev pub is_terminal : RunStatus → Bool
is_terminal completed = true
is_terminal failed = true
is_terminal rejected = true
is_terminal _ = false

-- The equality of the dataclass.
unfoldable pub node_eq {ℓ} : {S : Type ℓ} → GraphNode S → GraphNode S → Bool
node_eq a b =
    text_eq a.id b.id
    && text_eq a.name b.name
    && a.handler_id == b.handler_id
    && text_eq a.description b.description

-- `nodes.index(node)`; past the end where no node is equal.
unfoldable pub index {ℓ} : {S : Type ℓ} → GraphNode S → List (GraphNode S) → ℕ
unfolding node_eq
index n [] = 0
index n (m ∷ ms) = let rest = index n ms in if node_eq m n then 0 else suc rest

-- `nodes[n:]`
abbrev pub drop {ℓ} : {A : Type ℓ} → ℕ → List A → List A
drop zero xs = xs
drop (suc n) [] = []
drop (suc n) (x ∷ xs) = drop n xs
