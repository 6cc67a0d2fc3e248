-- ===== src/Tasks/Executor/Quiet.antt =====
-- One run of `execute` that nobody interrupts, with a runner that leaves the store alone.
use comet_rag.Prelude.{
  String, ◌≡◌, refl, ap, ◌∙◌, Bool, true, false, none, some, arith, eq_refl, if◌then◌else◌,
}
use comet_rag.Dict.{lookup}
use comet_rag.Tasks.Status.{pending, running, same}
use comet_rag.Tasks.States.{can_transition}
use comet_rag.Tasks.Error.{Error}
use comet_rag.Tasks.Models.{Task}
use comet_rag.Tasks.Models.Fields.{setattr}
use comet_rag.Tasks.Effect.{Db, World, Result, ok, err, M, pure, lift, now, attempt, ◌>>=◌}
use comet_rag.Tasks.Effect.Runs.{
  quiet, bind_returns, bind_raises, attempt_returns, attempt_raises, lift_lem, now_lem,
}
use comet_rag.Tasks.Memory.{load}
use comet_rag.Tasks.Cas.{check_fields, check_version}
use comet_rag.Tasks.Store.{transition, moved}
use comet_rag.Tasks.Store.Quiet.{
  logged-lookup, entering-id, load-quiet, transition-quiet, entering, logged,
}
use comet_rag.Tasks.Runner.{Outcome, Runner, Registry, get_runner}
use comet_rag.Tasks.Executor.{
  claim, claim_fields, context_of, run_claimed, take_up, go_on, execute, execute_found,
  unless_conflict,
}
use comet_rag.Tasks.Endings.{Executor, owned, still_mine, finish, on_error}

pub branch_true :
    {A : Type 0} (m n : M A) (w : World) {b : Bool} → b ≡ true → (if b then m else n) w ≡ m w
branch_true m n w e = ap (λ b. (if b then m else n) w) e

pub branch_false :
    {A : Type 0} (m n : M A) (w : World) {b : Bool} → b ≡ false → (if b then m else n) w ≡ n w
branch_false m n w e = ap (λ b. (if b then m else n) w) e

module _ (ex : Executor) (id : String) (d : Db) (t : Task) (found : lookup id d.tasks ≡ some t)
    (filed : t.task_id ≡ id) (waits : t.status ≡ pending) where
  abbrev pub claimed : Task
  claimed = entering (claim_fields ex t) running d.clock t

  abbrev pub after_claim : Db
  after_claim = logged id running none t claimed d

  claim-quiet : claim ex t id (quiet d) ≡ (ok true, quiet after_claim)
  unfolding claim pure check_fields can_transition check_version
  claim-quiet =
      attempt_returns (transition id running (some t.version) none (claim_fields ex t))
        (λ _. pure true) unless_conflict (quiet d) (quiet after_claim) claimed
        (transition-quiet id running (some t.version) none (claim_fields ex t) d t found refl filed
          (ground arith) (rw waits refl))

  pub claimed-lookup : lookup id after_claim.tasks ≡ some claimed
  unfolding check_fields
  claimed-lookup =
      logged-lookup id running none t claimed d
        (entering-id (claim_fields ex t) running d.clock t refl ∙ filed)

  owned-claimed : owned ex true (some claimed) ≡ some claimed
  unfolding owned moved setattr
  owned-claimed = rw eq_refl refl

  -- `execute` takes the task up and hands it to its runner.
  pub execute-claims :
      (registry : Registry) (runner : Runner)
      → get_runner t.kind registry ≡ ok runner
      → execute ex registry id (quiet d) ≡ run_claimed ex id runner (quiet after_claim)
  unfolding execute execute_found take_up pure
  execute-claims registry runner known =
      bind_returns (load id) _ (quiet d) (quiet d) (some t)
        (load-quiet id d ∙ ap (λ o. (ok o, quiet d)) found)
      ∙ branch_true (attempt (take_up ex registry id t) (go_on ex id) (on_error ex false id))
          (pure tt) (quiet d) (ap (λ s. same s pending) waits)
      ∙ attempt_returns (take_up ex registry id t) (go_on ex id) (on_error ex false id) (quiet d)
          (quiet after_claim) (some runner)
          (bind_returns (lift (get_runner t.kind registry)) _ (quiet d) (quiet d) runner
              (lift_lem _ _ ∙ ap (λ r. (r, quiet d)) known)
            ∙ bind_returns (claim ex t id) _ (quiet d) (quiet after_claim) true claim-quiet)

  module _ (runner : Runner) (r : Result Outcome)
      (idle : runner (context_of ex id d.clock) (quiet after_claim) ≡ (r, quiet after_claim)) where
    -- The claim holds still: no worker but this one is named in the record.
    pub mine-quiet :
        still_mine ex true id (quiet after_claim) ≡ (ok (some claimed), quiet after_claim)
    unfolding still_mine pure
    mine-quiet =
        bind_returns (load id) _ (quiet after_claim) (quiet after_claim) (some claimed)
          (load-quiet id after_claim ∙ ap (λ o. (ok o, quiet after_claim)) claimed-lookup)
        ∙ ap (λ o. (ok o, quiet after_claim)) owned-claimed

    pub run-returns :
        (o : Outcome) (v : World)
        → r ≡ ok o
        → finish ex id o (quiet after_claim) ≡ (ok tt, v)
        → run_claimed ex id runner (quiet after_claim) ≡ (ok tt, v)
    unfolding run_claimed pure
    run-returns o v e fin =
        attempt_returns (now >>= λ at. runner (context_of ex id at) >>= finish ex id) pure
          (on_error ex true id) (quiet after_claim) v tt
          (bind_returns now _ (quiet after_claim) (quiet after_claim) d.clock (now_lem _)
            ∙ bind_returns (runner (context_of ex id d.clock)) (finish ex id) (quiet after_claim)
                (quiet after_claim) o (idle ∙ ap (λ x. (x, quiet after_claim)) e)
            ∙ fin)

    pub run-raises :
        (e : Error)
        → r ≡ err e
        → run_claimed ex id runner (quiet after_claim) ≡ on_error ex true id e (quiet after_claim)
    unfolding run_claimed
    run-raises x e =
        attempt_raises (now >>= λ at. runner (context_of ex id at) >>= finish ex id) pure
          (on_error ex true id) (quiet after_claim) (quiet after_claim) x
          (bind_returns now _ (quiet after_claim) (quiet after_claim) d.clock (now_lem _)
            ∙ bind_raises (runner (context_of ex id d.clock)) (finish ex id) (quiet after_claim)
                (quiet after_claim) x (idle ∙ ap (λ x. (x, quiet after_claim)) e))
