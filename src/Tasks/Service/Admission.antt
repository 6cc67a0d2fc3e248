-- ===== src/Tasks/Service/Admission.antt =====
-- What the bound on the backlog refuses, and what a second submission under a key does.
use comet_rag.Prelude.{
  ℕ, ◌+◌, ◌<◌, ◌≡◌, ◌≢◌, refl, ap, sym, ◌∙◌, ◌↔◌, ◌⊎◌, Bool, true, false, ◌&&◌, none, some, List,
  [], ◌∷◌, arith, min, ltb, leb, eqb, if◌then◌else◌, length, keep, length-take, keep-eq, not, ◌||◌,
  Bool-cases, inl, inr,
}
use comet_rag.Dict.{values}
use comet_rag.Tasks.Status.{
  TaskStatus, pending, running, cancelling, succeeded, failed, cancelled, same,
}
use comet_rag.Tasks.Error.{backlogged}
use comet_rag.Tasks.Models.{Task}
use comet_rag.Tasks.Effect.{Db, ok, err, pure, raise, ◌>>=◌}
use comet_rag.Tasks.Effect.Runs.{quiet, bind_returns, atomic-quiet}
use comet_rag.Tasks.Memory.{Query, matches, place, newest_first, select, query}
use comet_rag.Tasks.Store.{list_tasks}
use comet_rag.Tasks.Service.{check_backlog, refuse_over}

abbrev pub waiting_tasks : Db → List Task
waiting_tasks d = keep (λ t. same t.status pending) (values d.tasks)

length-place : (t : Task) (ts : List Task) → length (place t ts) ≡ length ts + 1
unfolding place
length-place t [] = omega arith
length-place t (u ∷ us) = ground (arith, length-place t us)

length-newest_first : (ts : List Task) → length (newest_first ts) ≡ length ts
unfolding newest_first
length-newest_first [] = refl
length-newest_first (t ∷ ts) =
    omega (arith, length-place t (newest_first ts), length-newest_first ts)

abbrev pending_query : ℕ → Query
pending_query cap = record {
  kind = none;
  status = some pending;
  owner_id = none;
  idempotency_key = none;
  limit = cap;
  offset = 0;
}

matches-pending : (cap : ℕ) (t : Task) → matches (pending_query cap) t ≡ same t.status pending
unfolding matches
matches-pending cap t = by_status t.status
  where
    by_status : (s : TaskStatus) → (true && same s pending && true && true) ≡ same s pending
    by_status pending = refl
    by_status running = refl
    by_status cancelling = refl
    by_status succeeded = refl
    by_status failed = refl
    by_status cancelled = refl

length-listed :
    (cap : ℕ) (d : Db)
    → length (select (pending_query cap) d.tasks) ≡ min cap (length (waiting_tasks d))
unfolding select
length-listed cap d =
    length-take cap (newest_first (keep (matches (pending_query cap)) (values d.tasks)))
    ∙ ap (min cap)
        (length-newest_first _ ∙ ap length (keep-eq _ _ (values d.tasks) (matches-pending cap)))

check_backlog-quiet :
    (cap : ℕ) (d : Db)
    → check_backlog cap (quiet d) ≡ (
      (if eqb cap 0 || ltb (length (waiting_tasks d)) cap then ok tt else err (backlogged cap)),
      quiet d,
    )
unfolding check_backlog list_tasks query pure raise
check_backlog-quiet cap d = by_test (eqb cap 0)
  where
    refuse :
        (over under : Bool)
        → over ≡ not under
        → (if over then raise (backlogged cap) else pure tt) (quiet d)
          ≡ ((if under then ok tt else err (backlogged cap)), quiet d)
    refuse true true h = absurd cc
    refuse true false h = refl
    refuse false true h = refl
    refuse false false h = absurd cc

    by_test :
        (b : Bool)
        → (if b then pure tt else (list_tasks none (some pending) none cap 0 >>= refuse_over cap))
            (quiet d)
          ≡ (
            (if b || ltb (length (waiting_tasks d)) cap then ok tt else err (backlogged cap)),
            quiet d,
          )
    by_test true = refl
    by_test false =
        let listed = select (pending_query cap) d.tasks in
        bind_returns (list_tasks none (some pending) none cap 0) (refuse_over cap) (quiet d)
          (quiet d) listed (atomic-quiet _ d)
        ∙ refuse (leb cap (length listed)) (ltb (length (waiting_tasks d)) cap)
            (ground (arith, length-listed cap d))

-- A submission passes the check of the backlog, when nobody interrupts it, exactly if there is no
-- bound or fewer tasks than the bound are PENDING; and the check changes nothing.
pub check_backlog_iff :
    (cap : ℕ) (d : Db)
    → (((check_backlog cap (quiet d)).0 ≡ ok tt) ↔ ((cap ≡ 0) ⊎ (length (waiting_tasks d) < cap)))
      × ((check_backlog cap (quiet d)).1 ≡ quiet d)
check_backlog_iff cap d = (
  (
    (λ h. admitted (sym (ap (λ r. r.0) (check_backlog-quiet cap d)) ∙ h)),
    (λ h. ap (λ r. r.0) (check_backlog-quiet cap d) ∙ passes h),
  ),
  ap (λ r. r.1) (check_backlog-quiet cap d),
)
  where
    refuted :
        (b under : Bool)
        → b ≡ false
        → under ≡ false
        → (if b || under then ok tt else err (backlogged cap)) ≢ ok tt
    refuted false false x y h = cc
    refuted true under x y h = cc
    refuted false true x y h = cc

    admitted :
        (if eqb cap 0 || ltb (length (waiting_tasks d)) cap then ok tt else err (backlogged cap))
          ≡ ok tt
        → (cap ≡ 0) ⊎ (length (waiting_tasks d) < cap)
    admitted h = elim (Bool-cases (eqb cap 0)) [
      | inl unbounded ↦ inl (ground arith)
      | inr bounded ↦ elim (Bool-cases (ltb (length (waiting_tasks d)) cap)) [
        | inl few ↦ inr (ground arith)
        | inr many ↦ absurd (refuted (eqb cap 0) _ bounded many h)
      ]
    ]

    passes :
        (cap ≡ 0) ⊎ (length (waiting_tasks d) < cap)
        → (if eqb cap 0 || ltb (length (waiting_tasks d)) cap then ok tt else err (backlogged cap))
          ≡ ok tt
    passes h =
        let admits : eqb cap 0 || ltb (length (waiting_tasks d)) cap ≡ true = ground arith in
        ap (λ b. if b then ok tt else err (backlogged cap)) admits
