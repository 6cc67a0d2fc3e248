-- ===== src/Degradation/Hysteresis.antt =====
-- How the level moves: up at once, down one step at a time and only after a rest.
use comet_rag.Prelude.{
  ℕ, ◌+◌, ◌-◌, ◌≤◌, ◌<◌, ◌≡◌, refl, ap, sym, ◌∙◌, subst, max, Bool, false, Option, none, some, List,
  [], ◌∷◌, ◌++◌, arith, ltb, leb, if-elim, length, length-drop,
}
use comet_rag.Degradation.{
  Level, normal, no_rerank, lower_top_k, reject_writes, rank, one_below, DegradationSettings, Ratio,
  DegradationController, record_outcome, observe_saturation, failure_rate, target_at, switch,
  settle_level, judged, current_level,
}

rank-one_below : (l : Level) → 0 < rank l → rank (one_below l) + 1 ≡ rank l
rank-one_below normal h = omega arith
rank-one_below no_rerank h = omega arith
rank-one_below lower_top_k h = omega arith
rank-one_below reject_writes h = omega arith

-- The level never stands below its target because of a call, and comes down by one step at most,
-- and then only when it has stood for `recover_after`; a call that changes the level starts a new
-- rest.
pub record Moved (at : ℕ) (target : Level) (c d : DegradationController) : Type 0 where
  pub raised : rank target ≤ rank d.level
  pub bounded : rank d.level ≤ max (rank c.level) (rank target)
  pub one_step : rank c.level ≤ rank d.level + 1
  pub rested : (rank d.level < rank c.level) → c.settings.recover_after ≤ at - c.level_since
  pub restarted : (rank d.level < rank c.level) → d.level_since ≡ at
  pub kept : d.settings ≡ c.settings

settle_level-Moved :
    (at : ℕ) (target : Level) (c : DegradationController)
    → Moved at target c (settle_level at target c)
unfolding settle_level switch
settle_level-Moved at target c =
    if-elim (Moved at target c) (ltb (rank c.level) (rank target)) _ _
      (λ up. record {
        raised = omega arith;
        bounded = omega arith;
        one_step = ground arith;
        rested = λ h. absurd (ground arith);
        restarted = λ h. refl;
        kept = refl;
      })
      (λ not_up.
        if-elim (Moved at target c) (ltb (rank target) (rank c.level)) _ _
          (λ down.
            if-elim (Moved at target c) (leb c.settings.recover_after (at - c.level_since)) _ _
              (λ long.
                let below = rank-one_below c.level (ground arith) in
                record {
                  raised = ground arith;
                  bounded = ground arith;
                  one_step = omega arith;
                  rested = λ h. ground arith;
                  restarted = λ h. refl;
                  kept = refl;
                })
              (λ _. stays not_up))
          (λ _. stays not_up))
  where
    stays : ltb (rank c.level) (rank target) ≡ false → Moved at target c c
    stays not_up = record {
      raised = ground arith;
      bounded = omega arith;
      one_step = omega arith;
      rested = λ h. absurd (omega arith);
      restarted = λ h. absurd (omega arith);
      kept = refl;
    }

or_else :
    Level × DegradationController
    → Option (Level × DegradationController)
    → Level × DegradationController
or_else p none = p
or_else p (some q) = q

current_level-Moved :
    (at : ℕ) (c d : DegradationController) (l : Level)
    → current_level at c ≡ some (l, d)
    → (target : Level) × Moved at target c d × (l ≡ d.level)
unfolding current_level or_else
current_level-Moved at c d l h = by_rate (failure_rate c) h
  where
    by_rate :
        (r : Option Ratio)
        → judged at c r ≡ some (l, d)
        → (target : Level) × Moved at target c d × (l ≡ d.level)
    by_rate none h = absurd cc
    by_rate (some rate) h =
        let e = ap (or_else (l, d)) h in
        let moved = ap (λ p. p.1) e in
        (
          target_at c rate,
          subst (Moved at (target_at c rate) c) moved (settle_level-Moved at (target_at c rate) c),
          sym (ap (λ p. p.0) e) ∙ ap (λ x. x.level) moved,
        )

-- What happens between two looks at the level.
pub data Event : Type 0 where
  outcome : Bool → Event
  queue : ℕ → ℕ → Event

unfoldable pub observed : List Event → DegradationController → DegradationController
unfolding record_outcome observe_saturation
observed [] c = c
observed (outcome ok ∷ events) c = observed events (record_outcome ok c)
observed (queue waiting limit ∷ events) c = observed events (observe_saturation waiting limit c)

record Same (c d : DegradationController) : Type 0 where
  level : d.level ≡ c.level
  since : d.level_since ≡ c.level_since
  settings : d.settings ≡ c.settings

observed-Same : (events : List Event) (c : DegradationController) → Same c (observed events c)
unfolding observed record_outcome observe_saturation
observed-Same [] c = record { level = refl; since = refl; settings = refl }
observed-Same (outcome ok ∷ events) c =
    let r = observed-Same events (record_outcome ok c) in
    record { level = r.level; since = r.since; settings = r.settings }
observed-Same (queue waiting limit ∷ events) c =
    let r = observed-Same events (observe_saturation waiting limit c) in
    record { level = r.level; since = r.since; settings = r.settings }

-- Two looks at the level that lower it both, with any outcomes and queue lengths reported between
-- them, and the second not earlier than the first, are at least `recover_after` apart, and lower it
-- by two together.
pub recoveries_apart :
    (at later : ℕ) (c d e : DegradationController) (first second : Level) (events : List Event)
    → current_level at c ≡ some (first, d)
    → current_level later (observed events d) ≡ some (second, e)
    → at ≤ later
    → rank first < rank c.level
    → rank second < rank first
    → (at + c.settings.recover_after ≤ later) × (rank second + 2 ≡ rank c.level)
recoveries_apart at later c d e first second events h k order lower lower' =
    let (t, m, is_first) = current_level-Moved at c d first h in
    let (u, n, is_second) = current_level-Moved later (observed events d) e second k in
    let same = observed-Same events d in
    let before = ap rank is_first in
    let after = ap rank is_second in
    let kept = ap rank same.level in
    let down : rank d.level < rank c.level = omega (arith, before) in
    let down' : rank e.level < rank (observed events d).level =
      omega (arith, before, after, kept) in
    let start = same.since ∙ m.restarted down in
    let rest = ap (λ (x : DegradationSettings). x.recover_after) (same.settings ∙ m.kept) in
    (
      omega (arith, n.rested down', start, rest),
      omega (arith, m.one_step, n.one_step, before, after, kept),
    )

observed-window :
    (events : List Event) (c : DegradationController)
    → length c.outcomes ≤ c.settings.window
    → length (observed events c).outcomes ≤ c.settings.window
unfolding observed record_outcome observe_saturation
observed-window [] c h = h
observed-window (outcome ok ∷ events) c h = observed-window events (record_outcome ok c) (
    omega (
      arith,
      length-drop (length (c.outcomes ++ ok ∷ []) - c.settings.window) (c.outcomes ++ ok ∷ []),
    ))
observed-window (queue waiting limit ∷ events) c h =
    observed-window events (observe_saturation waiting limit c) h

-- A look at the level under any settings, with a failure rate that is defined: the level afterwards
-- is not below its target, is not above both the target and the level before, is at most one below
-- the level before, and if it is below it, the level had stood for `recover_after`.
pub current_level-bounds :
    (at : ℕ) (c d : DegradationController) (l : Level) (rate : Ratio)
    → failure_rate c ≡ some rate
    → current_level at c ≡ some (l, d)
    → (rank (target_at c rate) ≤ rank l)
      × (rank l ≤ max (rank c.level) (rank (target_at c rate)))
      × (rank c.level ≤ rank l + 1)
      × ((rank l < rank c.level) → c.settings.recover_after ≤ at - c.level_since)
unfolding current_level or_else
current_level-bounds at c d l rate known h =
    let m = settle_level-Moved at (target_at c rate) c in
    let e : judged at c (some rate) ≡ some (l, d) = sym (ap (judged at c) known) ∙ h in
    let same : rank (settle_level at (target_at c rate) c).level ≡ rank l =
      ap (λ o. rank (or_else (l, d) o).0) e in
    (
      omega (arith, m.raised, same),
      omega (arith, m.bounded, same),
      omega (arith, m.one_step, same),
      λ lower. m.rested (omega (arith, same)),
    )
