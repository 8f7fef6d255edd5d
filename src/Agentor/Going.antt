-- ===== src/Agentor/Going.antt =====
-- What a step of the loop makes of a run that goes on.
use conexus.Prelude.{
  ◌∙◌, ℕ, ◌≡◌, refl, Bool, false, Bool-cases, Option, Option-cases, none, some, List, [], ◌∷◌,
  arith, inl, inr,
}
use conexus.Agentor.{
  running, awaiting_approval, HumanApprovalCheckpoint, GraphState, Handled, returned, raised,
  raised_required, raised_rejected, Readings, handler_required, GraphNode, AgentRun, Exit, done,
  approval_required, approval_rejected, handler_failed, is_terminal, index,
}
use conexus.Agentor.Executor.{
  promote_checkpoint, after_checkpoint, after_handler, go_on, execute_node, execute_nodes,
}

-- A run that goes on: it is running, has no checkpoint, and is not stamped.
pub record Going {ℓ} {S : Type ℓ} (r : AgentRun S) : Type 0 where
  pub is_running : r.status ≡ running
  pub no_checkpoint : r.checkpoint ≡ none
  pub not_paused : r.paused_at ≡ none
  pub not_finished : r.finished_at ≡ none
  pub no_error : r.error ≡ none

-- A run that waits: the checkpoint is undecided.
pub record Waiting {ℓ} {S : Type ℓ} (r : AgentRun S) : Type 0 where
  pub is_awaiting : r.status ≡ awaiting_approval
  pub asked : HumanApprovalCheckpoint
  pub installed : r.checkpoint ≡ some asked
  pub undecided : asked.approved ≡ none
  pub unstamped : r.finished_at ≡ none

module _ {ℓ} {S : Type ℓ} (clock : Readings) (auto : Bool) where
  -- What one node leaves.
  abbrev pub Leaves : Exit × AgentRun S → Type 0
  Leaves (done, r) = Going r
  Leaves (approval_required, r) = Waiting r
  Leaves (approval_rejected reason, r) = (r.status ≡ running) × (r.finished_at ≡ none)
  Leaves (handler_required, r) = r.status ≡ running
  Leaves (handler_failed text, r) = (r.status ≡ running) × (r.finished_at ≡ none)

  after_checkpoint-Leaves :
      (i : ℕ) (node : GraphNode S) (o : Option HumanApprovalCheckpoint) (r : AgentRun S)
      → r.status ≡ running
      → r.paused_at ≡ none
      → r.finished_at ≡ none
      → r.error ≡ none
      → r.checkpoint ≡ o
      → Leaves (after_checkpoint clock auto i node o r)
  unfolding after_checkpoint
  after_checkpoint-Leaves i node none r st p f e c = record {
    is_running = st;
    no_checkpoint = refl;
    not_paused = p;
    not_finished = f;
    no_error = e;
  }
  after_checkpoint-Leaves i node (some k) r st p f e c = elim (Option-cases k.approved) [
    | inl un ↦ elim (Bool-cases auto) [
      | inl so ↦
          rw (after_checkpoint, un, so)
            (record {
              is_running = st;
              no_checkpoint = refl;
              not_paused = p;
              not_finished = f;
              no_error = e;
            })
      | inr not_so ↦
          rw (after_checkpoint, un, not_so)
            (record { is_awaiting = refl; asked = k; installed = c; undecided = un; unstamped = f })
    ]
    | inr (verdict, is) ↦ elim (Bool-cases verdict) [
      | inl so ↦
          rw (after_checkpoint, is, so)
            (record {
              is_running = st;
              no_checkpoint = refl;
              not_paused = p;
              not_finished = f;
              no_error = e;
            })
      | inr not_so ↦ rw (after_checkpoint, is, not_so) (st, f)
    ]
  ]

  pub promote_kept :
      (s : GraphState S) (r : AgentRun S)
      → ((promote_checkpoint s r).status ≡ r.status)
        × ((promote_checkpoint s r).paused_at ≡ r.paused_at)
        × ((promote_checkpoint s r).finished_at ≡ r.finished_at)
        × ((promote_checkpoint s r).error ≡ r.error)
  unfolding promote_checkpoint
  promote_kept s r = (ground arith, ground arith, ground arith, ground arith)

  after_handler-Leaves :
      (i : ℕ) (node : GraphNode S) (r : AgentRun S) (out : Handled S)
      → Going r
      → Leaves (after_handler clock auto i node r out)
  unfolding after_handler
  after_handler-Leaves i node r (raised text s) g = (g.is_running, g.not_finished)
  after_handler-Leaves i node r (raised_required s) g = g.is_running
  after_handler-Leaves i node r (raised_rejected reason s) g = (g.is_running, g.not_finished)
  after_handler-Leaves i node r (returned s) g =
      let kept = promote_kept s r in
      after_checkpoint-Leaves i node (promote_checkpoint s r).checkpoint (promote_checkpoint s r)
        (kept.0 ∙ g.is_running) (kept.1 ∙ g.not_paused) (kept.2 ∙ g.not_finished)
        (kept.3 ∙ g.no_error) refl

  pub execute_node-Leaves :
      (i : ℕ) (node : GraphNode S) (r : AgentRun S)
      → Going r
      → Leaves (execute_node clock auto i node r)
  unfolding execute_node
  execute_node-Leaves i node r g =
      after_handler-Leaves i node (record r { next_node_index = i }) (node.handler r.state)
        (record {
          is_running = g.is_running;
          no_checkpoint = g.no_checkpoint;
          not_paused = g.not_paused;
          not_finished = g.not_finished;
          no_error = g.no_error;
        })

  go_on-Leaves :
      (out : Exit × AgentRun S) (k : AgentRun S → Exit × AgentRun S)
      → Leaves out
      → ((r : AgentRun S) → Going r → Leaves (k r))
      → Leaves (go_on out k)
  go_on-Leaves (done, r) k l next = next r l
  go_on-Leaves (approval_required, r) k l next = l
  go_on-Leaves (approval_rejected reason, r) k l next = l
  go_on-Leaves (handler_failed text, r) k l next = l
  go_on-Leaves (handler_required, r) k l next = l

  pub execute_nodes-Leaves :
      (all nodes : List (GraphNode S)) (r : AgentRun S)
      → Going r
      → Leaves (execute_nodes clock auto all nodes r)
  unfolding execute_nodes
  execute_nodes-Leaves all [] r g = g
  execute_nodes-Leaves all (node ∷ nodes) r g =
      let live : is_terminal r.status ≡ false = rw (g.is_running) refl in
      rw live (
        go_on-Leaves (execute_node clock auto (index node all) node r)
          (λ r'. execute_nodes clock auto all nodes r')
          (execute_node-Leaves (index node all) node r g)
          (λ r' g'. execute_nodes-Leaves all nodes r' g'))
