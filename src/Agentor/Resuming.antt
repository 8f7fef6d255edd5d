-- ===== src/Agentor/Resuming.antt =====
-- A pause, an approval and a resumption do what an automatic approval does.
use conexus.Prelude.{
  ◌∙◌, ℕ, suc, ◌≡◌, refl, sym, ap, true, false, Bool-cases, Option, Option-cases, none, some,
  length, List, [], ◌∷◌, ◌++◌, arith, inl, inr, ==_refl,
}
use conexus.Text.{Text}
use conexus.Text.Laws.{text_eq_refl}
use conexus.Clock.{DateTime}
use conexus.Table.{find_where}
use conexus.Agentor.{
  running, awaiting_approval, completed, HumanApprovalCheckpoint, decide, Handled, returned, raised,
  raised_required, raised_rejected, Readings, call_started, call_finished, handler_required,
  GraphNode, AgentRun, Exit, done, approval_required, approval_rejected, handler_failed, status_eq,
  is_terminal, node_eq, index, drop,
}
use conexus.Agentor.Executor.{
  promote_checkpoint, after_checkpoint, after_handler, go_on, execute_node, execute_nodes, begun,
  continued, settle, stamp_finished, run_nodes, resumed, resume_decided, resume,
}
use conexus.Agentor.Going.{Going, Leaves, promote_kept, execute_nodes-Leaves, execute_node-Leaves}

-- No node equals a later one.
abbrev pub IsDistinct {ℓ} : {S : Type ℓ} → List (GraphNode S) → Type ℓ
IsDistinct [] = Unit
IsDistinct (n ∷ ns) = (find_where (λ m. node_eq n m) ns ≡ none) × IsDistinct ns

module _ {ℓ} {S : Type ℓ} where
  node_eq_refl : (n : GraphNode S) → node_eq n n ≡ true
  unfolding node_eq
  node_eq_refl n = ground (
    arith,
    text_eq_refl n.id,
    text_eq_refl n.name,
    ==_refl n.handler_id,
    text_eq_refl n.description,
  )

  differs :
      (p node : GraphNode S) (xs ys : List (GraphNode S))
      → find_where (λ m. node_eq p m) (xs ++ node ∷ ys) ≡ none
      → node_eq p node ≡ false
  unfolding find_where
  differs p node [] ys h = ground arith
  differs p node (x ∷ xs) ys h = ground (arith, differs p node xs ys)

  -- A node's index is the number of the nodes before it.
  index-append :
      (node : GraphNode S) (pre rest : List (GraphNode S))
      → IsDistinct (pre ++ node ∷ rest)
      → index node (pre ++ node ∷ rest) ≡ length pre
  unfolding index
  index-append node [] rest d = rw (node_eq_refl node) refl
  index-append node (p ∷ pre) rest d =
      rw (differs p node pre rest d.0) (ap suc (index-append node pre rest d.1))

  drop-append :
      (x : GraphNode S) (xs ys : List (GraphNode S)) → drop (suc (length xs)) (xs ++ x ∷ ys) ≡ ys
  drop-append x [] ys = refl
  drop-append x (y ∷ xs) ys = drop-append x xs ys

  append_one :
      (xs : List (GraphNode S)) (x : GraphNode S) (ys : List (GraphNode S))
      → xs ++ x ∷ ys ≡ (xs ++ x ∷ []) ++ ys
  append_one [] x ys = refl
  append_one (y ∷ xs) x ys = ap (λ zs. y ∷ zs) (append_one xs x ys)

  -- The nodes after a node are those that `resume` takes.
  rest_of_nodes :
      (node : GraphNode S) (pre rest all : List (GraphNode S))
      → all ≡ pre ++ node ∷ rest
      → IsDistinct all
      → drop (suc (index node all)) all ≡ rest
  rest_of_nodes node pre rest all split distinct =
      let distinct' : IsDistinct (pre ++ node ∷ rest) = rw (sym split) distinct in
      rw (split, index-append node pre rest distinct') (drop-append node pre rest)

  -- How a step agrees with the one that approves: it is the same one, or it pauses where the other
  -- goes on.
  abbrev Agrees : ℕ → Exit × AgentRun S → Exit × AgentRun S → Type ℓ
  Agrees i (approval_required, r) out = (r.next_node_index ≡ suc i) × (out ≡ (done, continued r))
  Agrees i (done, r) out = out ≡ (done, r)
  Agrees i (approval_rejected reason, r) out = out ≡ (approval_rejected reason, r)
  Agrees i (handler_required, r) out = out ≡ (handler_required, r)
  Agrees i (handler_failed text, r) out = out ≡ (handler_failed text, r)

-- The run that an approval makes of a waiting one.
abbrev pub approve {ℓ} :
    {S : Type ℓ} → DateTime → Option Text → HumanApprovalCheckpoint → AgentRun S → AgentRun S
approve at reason c r = record r { checkpoint = some (decide true at reason c) }

module _ {ℓ} {S : Type ℓ} (clock : Readings) where
  after_checkpoint-Agrees :
      (i : ℕ) (node : GraphNode S) (o : Option HumanApprovalCheckpoint) (r : AgentRun S)
      → r.status ≡ running
      → r.paused_at ≡ none
      → r.finished_at ≡ none
      → r.error ≡ none
      → Agrees i (after_checkpoint clock false i node o r) (after_checkpoint clock true i node o r)
  unfolding after_checkpoint
  after_checkpoint-Agrees i node none r st p f e = refl
  after_checkpoint-Agrees i node (some k) r st p f e = elim (Option-cases k.approved) [
    | inl un ↦ rw un (refl, rw (st, p, f, e) refl)
    | inr (verdict, is) ↦ elim (Bool-cases verdict) [
      | inl so ↦ rw (is, so) refl
      | inr not_so ↦ rw (is, not_so) refl
    ]
  ]

  after_handler-Agrees :
      (i : ℕ) (node : GraphNode S) (r : AgentRun S) (out : Handled S)
      → Going r
      → Agrees i (after_handler clock false i node r out) (after_handler clock true i node r out)
  unfolding after_handler
  after_handler-Agrees i node r (raised text s) g = refl
  after_handler-Agrees i node r (raised_required s) g = refl
  after_handler-Agrees i node r (raised_rejected reason s) g = refl
  after_handler-Agrees i node r (returned s) g =
      let kept = promote_kept clock false s r in
      after_checkpoint-Agrees i node (promote_checkpoint s r).checkpoint (promote_checkpoint s r)
        (kept.0 ∙ g.is_running) (kept.1 ∙ g.not_paused) (kept.2 ∙ g.not_finished)
        (kept.3 ∙ g.no_error)

  execute_node-Agrees :
      (i : ℕ) (node : GraphNode S) (r : AgentRun S)
      → Going r
      → Agrees i (execute_node clock false i node r) (execute_node clock true i node r)
  unfolding execute_node
  execute_node-Agrees i node r g =
      after_handler-Agrees i node (record r { next_node_index = i }) (node.handler r.state)
        (record {
          is_running = g.is_running;
          no_checkpoint = g.no_checkpoint;
          not_paused = g.not_paused;
          not_finished = g.not_finished;
          no_error = g.no_error;
        })

  module _ (all : List (GraphNode S)) (distinct : IsDistinct all) where
    -- Where the loop stops for a decision, going on there is what an automatic approval does.
    Continues : Exit × AgentRun S → Exit × AgentRun S → Type ℓ
    Continues (approval_required, r) out =
        out ≡ execute_nodes clock true all (drop r.next_node_index all) (continued r)
    Continues (done, r) out = out ≡ (done, r)
    Continues (approval_rejected reason, r) out = out ≡ (approval_rejected reason, r)
    Continues (handler_required, r) out = out ≡ (handler_required, r)
    Continues (handler_failed text, r) out = out ≡ (handler_failed text, r)

    go_on-Continues :
        (i : ℕ) (rest : List (GraphNode S)) (step step' : Exit × AgentRun S)
        → drop (suc i) all ≡ rest
        → Agrees i step step'
        → Leaves clock false step
        → ((r : AgentRun S)
            → Going r
            → Continues
                (execute_nodes clock false all rest r)
                (execute_nodes clock true all rest r))
        → Continues
            (go_on step (λ r. execute_nodes clock false all rest r))
            (go_on step' (λ r. execute_nodes clock true all rest r))
    unfolding Continues
    go_on-Continues i rest (done, r) step' at_rest a l next = rw a (next r l)
    go_on-Continues i rest (approval_required, r) step' at_rest a l next =
        rw (a.1, a.0, at_rest) refl
    go_on-Continues i rest (approval_rejected reason, r) step' at_rest a l next = rw a refl
    go_on-Continues i rest (handler_failed text, r) step' at_rest a l next = rw a refl
    go_on-Continues i rest (handler_required, r) step' at_rest a l next = rw a refl

    execute_nodes-Continues :
        (pre nodes : List (GraphNode S)) (r : AgentRun S)
        → all ≡ pre ++ nodes
        → Going r
        → Continues (execute_nodes clock false all nodes r) (execute_nodes clock true all nodes r)
    unfolding execute_nodes Continues
    execute_nodes-Continues pre [] r split g = refl
    execute_nodes-Continues pre (node ∷ rest) r split g =
        let live : is_terminal r.status ≡ false = rw (g.is_running) refl in
        let i = index node all in
        let at_rest : drop (suc i) all ≡ rest = rest_of_nodes node pre rest all split distinct in
        rw live (
          go_on-Continues i rest (execute_node clock false i node r)
            (execute_node clock true i node r) at_rest (execute_node-Agrees i node r g)
            (execute_node-Leaves clock false i node r g)
            (λ r' g'.
              execute_nodes-Continues (pre ++ node ∷ []) rest r' (split ∙ append_one pre node rest)
                g'))

    approval_required-Continues :
        (out : Exit × AgentRun S) (out' : Exit × AgentRun S) (r : AgentRun S)
        → Continues out out'
        → out ≡ (approval_required, r)
        → out' ≡ execute_nodes clock true all (drop r.next_node_index all) (continued r)
    unfolding Continues
    approval_required-Continues (approval_required, x) out' r c h =
        let same : x ≡ r = ap (λ (p : Exit × AgentRun S). p.1) h in rw (← same) c
    approval_required-Continues (done, x) out' r c h = absurd (ground arith)
    approval_required-Continues (approval_rejected reason, x) out' r c h = absurd (ground arith)
    approval_required-Continues (handler_failed text, x) out' r c h = absurd (ground arith)
    approval_required-Continues (handler_required, x) out' r c h = absurd (ground arith)

  -- A run that waits stopped for a decision.
  stopped :
      (out : Exit × AgentRun S) (r : AgentRun S)
      → Leaves clock false out
      → stamp_finished (clock call_finished) (settle out) ≡ r
      → r.status ≡ awaiting_approval
      → out ≡ (approval_required, r)
  unfolding stamp_finished settle
  stopped (done, x) r l h w =
      let goes : status_eq x.status running ≡ true = rw (l.is_running) refl in
      let ended : (stamp_finished (clock call_finished) (settle (done, x))).status ≡ completed =
        rw goes refl in
      absurd (ground (arith, ap AgentRun.status h, ended, w))
  stopped (approval_required, x) r l h w =
      let waits : status_eq x.status awaiting_approval ≡ true = rw (l.is_awaiting) refl in
      let same : stamp_finished (clock call_finished) x ≡ x = rw (stamp_finished, waits) refl in
      ap (λ y. (approval_required, y)) (sym same ∙ h)
  stopped (approval_rejected reason, x) r l h w = absurd (ground (arith, ap AgentRun.status h, w))
  stopped (handler_required, x) r l h w =
      let runs : status_eq x.status awaiting_approval ≡ false = rw l refl in
      let same : stamp_finished (clock call_finished) x
          ≡ record x { finished_at = some (clock call_finished) } =
        rw (stamp_finished, runs) refl in
      absurd (ground (arith, ap AgentRun.status (sym same ∙ h), l, w))
  stopped (handler_failed text, x) r l h w = absurd (ground (arith, ap AgentRun.status h, w))

  begun-Going : (r : AgentRun S) → r.checkpoint ≡ none → Going (begun (clock call_started) r)
  begun-Going r h = record {
    is_running = refl;
    no_checkpoint = h;
    not_paused = refl;
    not_finished = refl;
    no_error = refl;
  }

  -- What `resume` does with a waiting run whose checkpoint was approved.
  abbrev pub resumption : List (GraphNode S) → AgentRun S → AgentRun S
  resumption all r =
      stamp_finished (clock call_finished)
        (settle (execute_nodes clock true all (drop r.next_node_index all) (continued r)))

  pub resume_approved :
      (all : List (GraphNode S)) (at : DateTime) (reason : Option Text)
      (c : HumanApprovalCheckpoint) (r : AgentRun S)
      → r.status ≡ awaiting_approval
      → resume clock true all (approve at reason c r) ≡ resumed (resumption all r)
  unfolding resume resume_decided
  resume_approved all at reason c r w =
      let waits : status_eq r.status awaiting_approval ≡ true = rw w refl in rw waits refl

  -- Where the calls read the same times, going on after the pause returns the automatic run.
  pub resumption_lem :
      (nodes : List (GraphNode S)) (r : AgentRun S)
      → IsDistinct nodes
      → r.checkpoint ≡ none
      → (run_nodes clock false nodes r).status ≡ awaiting_approval
      → resumption nodes (run_nodes clock false nodes r) ≡ run_nodes clock true nodes r
  unfolding run_nodes
  resumption_lem nodes r distinct h w =
      let start = begun (clock call_started) r in
      let out = execute_nodes clock false nodes nodes start in
      let waiting = run_nodes clock false nodes r in
      let stop =
        stopped out waiting (execute_nodes-Leaves clock false nodes nodes start (begun-Going r h))
          refl w in
      let same =
        approval_required-Continues nodes distinct out (execute_nodes clock true nodes nodes start)
          waiting (execute_nodes-Continues nodes distinct [] nodes start refl (begun-Going r h))
          stop in
      ap (λ e. stamp_finished (clock call_finished) (settle e)) (sym same)
