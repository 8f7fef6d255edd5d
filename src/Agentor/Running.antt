-- ===== src/Agentor/Running.antt =====
-- How a run of a workflow ends.
use conexus.Prelude.{
  ℕ, ◌≡◌, refl, Bool, true, false, Bool-cases, Option, none, some, List, [], ◌∷◌, arith, inl, inr,
  ◌⊎◌,
}
use conexus.Clock.{DateTime}
use conexus.Agentor.{
  running, awaiting_approval, HumanApprovalCheckpoint, GraphState, Handled, returned, raised,
  raised_required, raised_rejected, Readings, call_started, call_finished, handler_required,
  GraphNode, AgentRun, Exit, done, approval_required, approval_rejected, handler_failed, status_eq,
  is_terminal, index,
}
use conexus.Agentor.Executor.{
  after_checkpoint, after_handler, go_on, execute_node, execute_nodes, begun, settle,
  stamp_finished, run_nodes,
}
use conexus.Agentor.Going.{Waiting, Leaves, execute_nodes-Leaves}

-- The run is over: completed, failed or rejected, with the time of its end.
pub record Over {ℓ} {S : Type ℓ} (end : DateTime) (r : AgentRun S) : Type 0 where
  pub ended : is_terminal r.status ≡ true
  pub stamped : r.finished_at ≡ some end

-- The run was left by a handler's own ApprovalRequiredError: it still says that it is running, and it
-- is stamped as finished.
pub record Escaped {ℓ} {S : Type ℓ} (end : DateTime) (r : AgentRun S) : Type 0 where
  pub still_running : r.status ≡ running
  pub stamped : r.finished_at ≡ some end

-- A handler of one of the nodes raises an ApprovalRequiredError in some state.
pub data RaisesRequired {ℓ} {S : Type ℓ} : List (GraphNode S) → Type ℓ where
  this_node :
      (n : GraphNode S) (ns : List (GraphNode S)) (s s' : GraphState S)
      → n.handler s ≡ raised_required s'
      → RaisesRequired (n ∷ ns)
  later_node :
      (n : GraphNode S) (ns : List (GraphNode S)) → RaisesRequired ns → RaisesRequired (n ∷ ns)

module _ {ℓ} {S : Type ℓ} (clock : Readings) (auto : Bool) where
  -- The loop's own exception is not the handler's.
  after_checkpoint-stays :
      (i : ℕ) (node : GraphNode S) (o : Option HumanApprovalCheckpoint) (r : AgentRun S)
      → ¬ ((after_checkpoint clock auto i node o r).0 ≡ handler_required)
  unfolding after_checkpoint
  after_checkpoint-stays i node o r h = ground arith

  after_handler-raises :
      (i : ℕ) (node : GraphNode S) (r : AgentRun S) (out : Handled S)
      → (after_handler clock auto i node r out).0 ≡ handler_required
      → (s : GraphState S) × (out ≡ raised_required s)
  unfolding after_handler
  after_handler-raises i node r (raised text s) h = absurd (ground (arith, h))
  after_handler-raises i node r (raised_required s) h = (s, refl)
  after_handler-raises i node r (raised_rejected reason s) h = absurd (ground (arith, h))
  after_handler-raises i node r (returned s) h = absurd (after_checkpoint-stays i node _ _ h)

  go_on-raises :
      (out : Exit × AgentRun S) (k : AgentRun S → Exit × AgentRun S)
      → (go_on out k).0 ≡ handler_required
      → (out.0 ≡ handler_required) ⊎ ((k out.1).0 ≡ handler_required)
  go_on-raises (done, r) k h = inr h
  go_on-raises (approval_required, r) k h = inl h
  go_on-raises (approval_rejected reason, r) k h = inl h
  go_on-raises (handler_failed text, r) k h = inl h
  go_on-raises (handler_required, r) k h = inl h

  execute_nodes-raises :
      (all nodes : List (GraphNode S)) (r : AgentRun S)
      → (execute_nodes clock auto all nodes r).0 ≡ handler_required
      → RaisesRequired nodes
  unfolding execute_nodes execute_node
  execute_nodes-raises all [] r h = absurd (ground (arith, h))
  execute_nodes-raises all (node ∷ nodes) r h = elim (Bool-cases (is_terminal r.status)) [
    | inl over ↦ absurd (ground (arith, h, over))
    | inr live ↦
        elim (go_on-raises (execute_node clock auto (index node all) node r)
          (λ r'. execute_nodes clock auto all nodes r') (rw live at h)) [
            | inl raises ↦
                let (s, is) =
                  after_handler-raises (index node all) node
                    (record r { next_node_index = index node all }) (node.handler r.state) raises in
                this_node node nodes r.state s is
            | inr later ↦ later_node node nodes (execute_nodes-raises all nodes _ later)
          ]
  ]

  -- What a call returns after the loop.
  Ends : Exit × AgentRun S → AgentRun S → Type 0
  Ends out r =
      (Over (clock call_finished) r ⊎ Waiting r)
      ⊎ ((out.0 ≡ handler_required) × Escaped (clock call_finished) r)

  settled_cases :
      (out : Exit × AgentRun S)
      → Leaves clock auto out
      → Ends out (stamp_finished (clock call_finished) (settle out))
  unfolding stamp_finished settle Ends
  settled_cases (done, r) g =
      inl (inl (rw (g.is_running) (record { ended = refl; stamped = refl })))
  settled_cases (approval_required, r) w =
      let waits : status_eq r.status awaiting_approval ≡ true = rw (w.is_awaiting) refl in
      inl (inr (rw waits w))
  settled_cases (approval_rejected reason, r) l =
      inl (inl (record { ended = refl; stamped = refl }))
  settled_cases (handler_failed text, r) l = inl (inl (record { ended = refl; stamped = refl }))
  settled_cases (handler_required, r) l =
      let runs : status_eq r.status awaiting_approval ≡ false = rw l refl in
      inr (refl, rw runs (record { still_running = l; stamped = refl }))

  -- From a run without a checkpoint, `run` returns a run that is over, with the time of its end, or
  -- one that waits for the decision of an undecided checkpoint and is not stamped as finished; or
  -- else a node's handler raises an ApprovalRequiredError itself, and the run says that it is running
  -- and is stamped as finished.
  pub run_ends :
      (nodes : List (GraphNode S)) (r : AgentRun S)
      → r.checkpoint ≡ none
      → (Over (clock call_finished) (run_nodes clock auto nodes r)
          ⊎ Waiting (run_nodes clock auto nodes r))
        ⊎ (RaisesRequired nodes × Escaped (clock call_finished) (run_nodes clock auto nodes r))
  unfolding run_nodes Ends
  run_ends nodes r h =
      let out = execute_nodes clock auto nodes nodes (begun (clock call_started) r) in
      let ends = settled_cases out (
        execute_nodes-Leaves clock auto nodes nodes (begun (clock call_started) r) (record {
          is_running = refl;
          no_checkpoint = h;
          not_paused = refl;
          not_finished = refl;
          no_error = refl;
        })) in
      elim ends [
        | inl ordinary ↦ inl ordinary
        | inr (raises, escaped) ↦ inr (execute_nodes-raises nodes nodes _ raises, escaped)
      ]
