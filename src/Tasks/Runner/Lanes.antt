-- ===== src/Tasks/Runner/Lanes.antt =====
-- When a pipeline hands a task to another lane, under any interleaving.
use comet_rag.Prelude.{
  ℕ, zero, suc, ◌+◌, String, ◌≡◌, ◌⊎◌, inl, inr, refl, ap, sym, ◌∙◌, subst, Bool, true, false,
  Option, none, some, List, [], ◌∷◌, leb, if◌then◌else◌, ◌==◌, drop, All, length,
}
use comet_rag.Tasks.Status.{cancelling, same}
use comet_rag.Tasks.Error.{task_cancelled}
use comet_rag.Tasks.Models.{Message}
use comet_rag.Tasks.Effect.{World, M, Result, ok, err, pure, raise, now, ◌>>=◌, ◌>>◌}
use comet_rag.Tasks.Effect.Runs.{bind_inv}
use comet_rag.Tasks.Store
use comet_rag.Tasks.Runner.{
  Outcome, done, handoff, TaskContext, Stage, snapshot, checkpoint, beat_if_due, unless_cancelling,
  enter_stage, other_lane, start_of, run_stage, unless_done, run_stages, run_pipeline,
}

lane_in : Result TaskContext → Option String → Option String
lane_in (ok c) l = c.lane
lane_in (err e) l = l

checkpoint-lane :
    (ctx ctx' : TaskContext) (w : World) → (checkpoint ctx w).0 ≡ ok ctx' → ctx'.lane ≡ ctx.lane
unfolding checkpoint pure raise lane_in
checkpoint-lane ctx ctx' w h =
    bind_inv (λ _. Goal) (snapshot ctx) (unless_cancelling ctx) w h
      λ t got h1. unless (same t.status cancelling) _ h1
  where
    Goal : Type 0
    Goal = ctx'.lane ≡ ctx.lane

    beat :
        (b : Bool) (at : ℕ) (v : World)
        → ((if b
              then (Store.heartbeat ctx.task_id >> pure (record ctx { last_beat = at }))
              else pure ctx)
            v).0
          ≡ ok ctx'
        → Goal
    beat true at v e =
        bind_inv (λ _. Goal) (Store.heartbeat ctx.task_id) _ v e
          λ x beaten e1. sym (ap (λ r. lane_in r none) e1)
    beat false at v e = sym (ap (λ r. lane_in r none) e)

    unless :
        (b : Bool) (v : World)
        → ((if b then raise (task_cancelled ctx.task_id) else (now >>= beat_if_due ctx)) v).0
          ≡ ok ctx'
        → Goal
    unless true v e = cc
    unless false v e =
        bind_inv (λ _. Goal) now (beat_if_due ctx) v e
          λ at read e1. beat (leb (ctx.last_beat + ctx.hb_interval) at) at _ e1

-- One of the stages has this name and this lane, which is not the worker's own.
pub Owed : Option String → String → String → List Stage → Type 0
Owed mine lane stage [] = ⊥
Owed mine lane stage (s ∷ rest) =
    ((s.name ≡ stage)
      × (s.lane ≡ some lane)
      × ((own : String) × (mine ≡ some own) × ((lane == own) ≡ false)))
    ⊎ Owed mine lane stage rest

-- A stage function hands on the context with the lane it was given.
abbrev pub KeepsLane : Stage → Type 0
KeepsLane s =
    (c c' : TaskContext) (w : World) (o : Option Outcome)
    → (s.fn c w).0 ≡ ok (o, c')
    → c'.lane ≡ c.lane

lane_cases :
    (theirs mine : Option String) (lane : String)
    → other_lane theirs mine ≡ some lane
    → (theirs ≡ some lane) × ((own : String) × (mine ≡ some own) × ((lane == own) ≡ false))
unfolding other_lane
lane_cases none mine lane h = absurd cc
lane_cases (some l) none lane h = absurd cc
lane_cases (some l) (some own) lane h =
    let (differs, e) = pick (l == own) h in
    (e, (own, refl, ap (λ o. named o == own) (sym e) ∙ differs))
  where
    named : Option String → String
    named none = own
    named (some x) = x

    pick :
        (b : Bool) → (if b then none else some l) ≡ some lane → (b ≡ false) × (some l ≡ some lane)
    pick true e = absurd cc
    pick false e = (refl, e)

All-drop : (n : ℕ) (P : Stage → Type 0) (stages : List Stage) → All P stages → All P (drop n stages)
All-drop zero P stages a = a
All-drop (suc n) P [] a = a
All-drop (suc n) P (s ∷ rest) a = All-drop n P rest a.1

Owed-drop :
    (n : ℕ) (mine : Option String) (lane stage : String) (stages : List Stage)
    → Owed mine lane stage (drop n stages)
    → Owed mine lane stage stages
unfolding Owed
Owed-drop zero mine lane stage stages h = h
Owed-drop (suc n) mine lane stage [] h = h
Owed-drop (suc n) mine lane stage (s ∷ rest) h = inr (Owed-drop n mine lane stage rest h)

handed : Result Outcome → Option (String × String)
handed (ok (handoff lane stage m)) = some (lane, stage)
handed (ok (done r u m)) = none
handed (err e) = none

lane_of_pair : String × String → Option (String × String) → String × String
lane_of_pair p none = p
lane_of_pair p (some q) = q

module _ (total i : ℕ) (s : Stage) (rest : List Stage) (ctx : TaskContext) (lane stage : String)
    (m : Message) (keep_s : KeepsLane s) (continue : TaskContext → M Outcome)
    (goes : (c : TaskContext) (v : World)
      → (continue c v).0 ≡ ok (handoff lane stage m)
      → Owed c.lane lane stage rest) where
  abbrev Goal : Type 0
  Goal = Owed ctx.lane lane stage (s ∷ rest)

  goes_on :
      (o : Option Outcome) (c : TaskContext) (v : World)
      → c.lane ≡ ctx.lane
      → (unless_done continue (o, c) v).0 ≡ ok (handoff lane stage m)
      → Goal
  unfolding Owed pure
  goes_on (some (done r u n)) c v e h2 = absurd cc
  goes_on (some (handoff a b n)) c v e h2 =
      inr (subst (λ mine. Owed mine lane stage rest) e (goes c v h2))
  goes_on none c v e h2 = inr (subst (λ mine. Owed mine lane stage rest) e (goes c v h2))

  run_stage-Owed :
      (w : World) (o : Option String)
      → other_lane s.lane ctx.lane ≡ o
      → (run_stage continue total i s ctx o w).0 ≡ ok (handoff lane stage m)
      → Goal
  unfolding run_stage pure handed lane_of_pair Owed
  run_stage-Owed w (some l) e h1 =
      let pair = ap (λ r. lane_of_pair (lane, stage) (handed r)) h1 in
      let (theirs, differs) = lane_cases s.lane ctx.lane lane (e ∙ ap (λ p. some p.0) pair) in
      inl (ap (λ p. p.1) pair, theirs, differs)
  run_stage-Owed w none e h1 =
      bind_inv (λ _. Goal) (checkpoint ctx) _ w h1
        λ ctx' checked h2.
          bind_inv (λ _. Goal) (enter_stage ctx' s.name (some (record { num = i; den = total })) "")
            _ _ h2
            λ x entered h3.
              bind_inv (λ _. Goal) (s.fn ctx') (unless_done continue) _ h3
                λ out ran h4.
                  goes_on out.0 out.1 _
                    (keep_s ctx' out.1 _ out.0 ran ∙ checkpoint-lane ctx ctx' w checked) h4

run_stages-Owed :
    (total i : ℕ) (stages : List Stage) (ctx : TaskContext) (w : World) (lane stage : String)
    (m : Message)
    → All KeepsLane stages
    → (run_stages total i stages ctx w).0 ≡ ok (handoff lane stage m)
    → Owed ctx.lane lane stage stages
unfolding run_stages run_stage pure handed lane_of_pair Owed
run_stages-Owed total i [] ctx w lane stage m keeps h =
    bind_inv (λ _. Owed ctx.lane lane stage []) (snapshot ctx) _ w h λ t got h1. absurd (cc)
run_stages-Owed total i (s ∷ rest) ctx w lane stage m (keep_s, keep_rest) h =
    run_stage-Owed total i s rest ctx lane stage m keep_s (run_stages total (suc i) rest)
      (λ c v. run_stages-Owed total (suc i) rest c v lane stage m keep_rest) w
      (other_lane s.lane ctx.lane) refl h

-- Under any interleaving, if stage functions hand on the lane of the context and a pipeline ends by
-- a hand-off, then the worker serves one lane only, the hand-off names a stage of the pipeline and
-- the lane of that stage, and this lane is not the worker's own.
pub run_pipeline-Owed :
    (stages : List Stage) (ctx : TaskContext) (w : World) (lane stage : String) (m : Message)
    → All KeepsLane stages
    → (run_pipeline stages ctx w).0 ≡ ok (handoff lane stage m)
    → Owed ctx.lane lane stage stages
unfolding run_pipeline
run_pipeline-Owed stages ctx w lane stage m keeps h =
    bind_inv (λ _. Owed ctx.lane lane stage stages) (snapshot ctx) _ w h
      λ t got h1.
        let n = start_of stages t.resume_stage in
        Owed-drop n ctx.lane lane stage stages (
          run_stages-Owed (length stages) n (drop n stages) ctx _ lane stage m
            (All-drop n KeepsLane stages keeps) h1)
