-- ===== src/Agentor/Untimed.antt =====
-- The calls of the executor up to the times that they write down: a run does not depend on the clock
-- but for these, so a decision may take any time.
use conexus.Prelude.{
  ◌∙◌, ℕ, ◌≡◌, refl, sym, ap, Bool, true, false, Bool-cases, Option, Option-cases, none, some, List,
  [], ◌∷◌, ◌++◌, map, inl, inr,
}
use conexus.Text.{Text}
use conexus.Clock.{DateTime}
use conexus.Agentor.{
  awaiting_approval, HumanApprovalCheckpoint, GraphState, Handled, returned, raised,
  raised_required, raised_rejected, GraphNode, NodeOutcome, AgentRun, Exit, done, approval_required,
  approval_rejected, handler_failed, handler_required, Readings, call_started, call_finished,
  is_terminal, status_eq, running, index, drop,
}
use conexus.Agentor.Executor.{
  promote_checkpoint, after_checkpoint, after_handler, go_on, execute_node, execute_nodes, begun,
  continued, settle, stamp_finished, run_nodes, resumed, resume,
}
use conexus.Agentor.Resuming.{IsDistinct, approve, resumption, resume_approved, resumption_lem}

abbrev retime : DateTime → Option DateTime → Option DateTime
retime e none = none
retime e (some t) = some e

abbrev untimed_outcome : DateTime → NodeOutcome → NodeOutcome
untimed_outcome e o = record o { started_at = e; finished_at = retime e o.finished_at }

-- A run with every time that the executor wrote down set to `e`.
abbrev pub untimed {ℓ} : {S : Type ℓ} → DateTime → AgentRun S → AgentRun S
untimed e r = record r {
  node_outcomes = map (untimed_outcome e) r.node_outcomes;
  paused_at = retime e r.paused_at;
  started_at = retime e r.started_at;
  finished_at = retime e r.finished_at;
}

abbrev still : DateTime → Readings
still e reading = e

untimed_append :
    (e : DateTime) (os : List NodeOutcome) (o : NodeOutcome)
    → map (untimed_outcome e) (os ++ o ∷ [])
      ≡ map (untimed_outcome e) os ++ untimed_outcome e o ∷ []
untimed_append e [] o = refl
untimed_append e (x ∷ os) o = ap (λ t. untimed_outcome e x ∷ t) (untimed_append e os o)

module _ {ℓ} {S : Type ℓ} (e : DateTime) where
  abbrev untimed_exit : Exit × AgentRun S → Exit × AgentRun S
  untimed_exit (x, r) = (x, untimed e r)

  untimed-promote :
      (s : GraphState S) (r : AgentRun S)
      → untimed e (promote_checkpoint s r) ≡ promote_checkpoint s (untimed e r)
  unfolding promote_checkpoint
  untimed-promote s r = elim (Option-cases s.pending_checkpoint) [
    | inl nothing ↦ rw (promote_checkpoint, nothing) refl
    | inr (c, asks) ↦ elim (Option-cases r.checkpoint) [
      | inl free ↦ rw (promote_checkpoint, asks, free) refl
      | inr (d, has) ↦ rw (promote_checkpoint, asks, has) refl
    ]
  ]

  module _ (clock : Readings) (auto : Bool) where
    untimed-after_checkpoint :
        (i : ℕ) (node : GraphNode S) (o : Option HumanApprovalCheckpoint) (r : AgentRun S)
        → untimed_exit (after_checkpoint clock auto i node o r)
          ≡ after_checkpoint (still e) auto i node o (untimed e r)
    unfolding after_checkpoint
    untimed-after_checkpoint i node none r = rw (untimed_append e r.node_outcomes _) refl
    untimed-after_checkpoint i node (some c) r = elim (Option-cases c.approved) [
      | inl un ↦ elim (Bool-cases auto) [
        | inl so ↦ rw (after_checkpoint, un, so) (rw (untimed_append e r.node_outcomes _) refl)
        | inr not_so ↦
            rw (after_checkpoint, un, not_so) (rw (untimed_append e r.node_outcomes _) refl)
      ]
      | inr (verdict, is) ↦ elim (Bool-cases verdict) [
        | inl so ↦ rw (after_checkpoint, is, so) (rw (untimed_append e r.node_outcomes _) refl)
        | inr not_so ↦
            rw (after_checkpoint, is, not_so) (rw (untimed_append e r.node_outcomes _) refl)
      ]
    ]

    untimed-after_handler :
        (i : ℕ) (node : GraphNode S) (r : AgentRun S) (out : Handled S)
        → untimed_exit (after_handler clock auto i node r out)
          ≡ after_handler (still e) auto i node (untimed e r) out
    unfolding after_handler
    untimed-after_handler i node r (raised text s) = rw (untimed_append e r.node_outcomes _) refl
    untimed-after_handler i node r (raised_required s) =
        rw (untimed_append e r.node_outcomes _) refl
    untimed-after_handler i node r (raised_rejected reason s) =
        rw (untimed_append e r.node_outcomes _) refl
    untimed-after_handler i node r (returned s) =
        let installed = promote_checkpoint s r in
        untimed-after_checkpoint i node installed.checkpoint installed
        ∙ ap (λ (x : AgentRun S). after_checkpoint (still e) auto i node x.checkpoint x)
            (untimed-promote s r)

    untimed-go_on :
        (out : Exit × AgentRun S) (k k' : AgentRun S → Exit × AgentRun S)
        → ((r : AgentRun S) → untimed_exit (k r) ≡ k' (untimed e r))
        → untimed_exit (go_on out k) ≡ go_on (untimed_exit out) k'
    untimed-go_on (done, r) k k' same = same r
    untimed-go_on (approval_required, r) k k' same = refl
    untimed-go_on (approval_rejected reason, r) k k' same = refl
    untimed-go_on (handler_failed text, r) k k' same = refl
    untimed-go_on (handler_required, r) k k' same = refl

    untimed-execute_nodes :
        (all nodes : List (GraphNode S)) (r : AgentRun S)
        → untimed_exit (execute_nodes clock auto all nodes r)
          ≡ execute_nodes (still e) auto all nodes (untimed e r)
    unfolding execute_nodes execute_node
    untimed-execute_nodes all [] r = refl
    untimed-execute_nodes all (node ∷ nodes) r = elim (Bool-cases (is_terminal r.status)) [
      | inl over ↦ rw over refl
      | inr live ↦
          let i = index node all in
          rw live (
            untimed-go_on (execute_node clock auto i node r)
              (λ r'. execute_nodes clock auto all nodes r')
              (λ r'. execute_nodes (still e) auto all nodes r')
              (λ r'. untimed-execute_nodes all nodes r')
            ∙ ap (λ x. go_on x (λ r'. execute_nodes (still e) auto all nodes r'))
                (untimed-after_handler i node (record r { next_node_index = i })
                  (node.handler r.state)))
    ]

  untimed-settle : (out : Exit × AgentRun S) → untimed e (settle out) ≡ settle (untimed_exit out)
  unfolding settle
  untimed-settle (done, r) = elim (Bool-cases (status_eq r.status running)) [
    | inl so ↦ rw so refl
    | inr not_so ↦ rw not_so refl
  ]
  untimed-settle (approval_required, r) = refl
  untimed-settle (approval_rejected reason, r) = refl
  untimed-settle (handler_failed text, r) = refl
  untimed-settle (handler_required, r) = refl

  untimed-stamp :
      (t : DateTime) (r : AgentRun S)
      → untimed e (stamp_finished t r) ≡ stamp_finished e (untimed e r)
  unfolding stamp_finished
  untimed-stamp t r = elim (Bool-cases (status_eq r.status awaiting_approval)) [
    | inl so ↦ rw so refl
    | inr not_so ↦ rw not_so refl
  ]

  -- The end of a call.
  untimed-end :
      (clock : Readings) (auto : Bool) (all nodes : List (GraphNode S)) (r : AgentRun S)
      → untimed e
          (stamp_finished (clock call_finished) (settle (execute_nodes clock auto all nodes r)))
        ≡ stamp_finished e (settle (execute_nodes (still e) auto all nodes (untimed e r)))
  untimed-end clock auto all nodes r =
      untimed-stamp (clock call_finished) _
      ∙ ap (stamp_finished e) (
          untimed-settle (execute_nodes clock auto all nodes r)
          ∙ ap settle (untimed-execute_nodes clock auto all nodes r))

  untimed-run :
      (clock : Readings) (auto : Bool) (nodes : List (GraphNode S)) (r : AgentRun S)
      → untimed e (run_nodes clock auto nodes r) ≡ run_nodes (still e) auto nodes (untimed e r)
  unfolding run_nodes
  untimed-run clock auto nodes r = untimed-end clock auto nodes nodes (begun (clock call_started) r)

  -- For a workflow whose nodes differ and a run without a checkpoint, whatever times the calls read:
  -- when `run` stops for a decision, approving its checkpoint, or any `c` in its place, and resuming
  -- with automatic approval returns a run that differs at most in the times it records from the one
  -- that `run` with automatic approval returns.
  pub approve_and_resume :
      (run_clock resume_clock auto_clock : Readings) (nodes : List (GraphNode S)) (r : AgentRun S)
      (c : HumanApprovalCheckpoint) (at : DateTime) (reason : Option Text)
      → IsDistinct nodes
      → r.checkpoint ≡ none
      → (run_nodes run_clock false nodes r).status ≡ awaiting_approval
      → (r' : AgentRun S) × (resume resume_clock true nodes
            (approve at reason c (run_nodes run_clock false nodes r))
          ≡ resumed r')
        × (untimed e r' ≡ untimed e (run_nodes auto_clock true nodes r))
  approve_and_resume run_clock resume_clock auto_clock nodes r c at reason distinct h w =
      let waiting = run_nodes run_clock false nodes r in
      let pauses = untimed-run run_clock false nodes r in
      let waits = sym (ap AgentRun.status pauses) ∙ w in
      (
        resumption resume_clock nodes waiting,
        resume_approved resume_clock nodes at reason c waiting w,
        untimed-end resume_clock true nodes (drop waiting.next_node_index nodes) (continued waiting)
            ∙ ap (resumption (still e) nodes) pauses
            ∙ resumption_lem (still e) nodes (untimed e r) distinct h waits
            ∙ sym (untimed-run auto_clock true nodes r),
      )
