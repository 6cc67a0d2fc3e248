-- ===== src/Degradation.antt =====
-- `DegradationController` of comet_rag/core/degradation.py. A rate is a quotient of whole numbers,
-- a time is a number of ticks; what the clock says is an argument, and it never goes back.
pub mod Hysteresis
use comet_rag.Prelude.{
  ℕ, zero, suc, ◌+◌, ◌-◌, ◌*◌, ◌/◌, max, String, Bool, true, false, ◌||◌, not, Option, none, some,
  List, [], ◌∷◌, ◌++◌, ltb, leb, eqb, if◌then◌else◌, length, drop, keep,
}
use comet_rag.Dict.{Dict, lookup, insert}

pub data Level : Type 0 where
  normal no_rerank lower_top_k reject_writes : Level

abbrev pub rank : Level → ℕ
rank normal = 0
rank no_rerank = 1
rank lower_top_k = 2
rank reject_writes = 3

abbrev pub name : Level → String
name normal = "NORMAL"
name no_rerank = "NO_RERANK"
name lower_top_k = "LOWER_TOP_K"
name reject_writes = "REJECT_WRITES"

-- `Level(level - 1)` of a level above another
abbrev pub one_below : Level → Level
one_below normal = normal
one_below no_rerank = normal
one_below lower_top_k = no_rerank
one_below reject_writes = lower_top_k

pub record Ratio : Type 0 where
  pub num : ℕ
  pub den : ℕ

-- `a >= b`, for quotients by more than 0
abbrev pub at_least : Ratio → Ratio → Bool
at_least a b = leb (b.num * a.den) (a.num * b.den)

pub record DegradationSettings : Type 0 where
  pub failure_rate : Level → Ratio
  pub saturation : Level → Ratio
  pub min_samples : ℕ
  pub window : ℕ
  pub recover_after : ℕ
  pub top_k_factor : Ratio

pub record DegradationController : Type 0 where
  pub settings : DegradationSettings
  pub outcomes : List Bool
  pub level : Level
  pub level_since : ℕ
  pub saturation : Ratio
  pub transitions : Dict ℕ

-- `__init__`
unfoldable pub new_controller : DegradationSettings → ℕ → DegradationController
new_controller settings at = record {
  settings = settings;
  outcomes = [];
  level = normal;
  level_since = at;
  saturation = record { num = 0; den = 1 };
  transitions = [];
}

-- `record`: the deque drops its oldest outcome when it is full
unfoldable pub record_outcome : Bool → DegradationController → DegradationController
record_outcome ok c =
    let all = c.outcomes ++ ok ∷ [] in
    record c { outcomes = drop (length all - c.settings.window) all }

-- `observe_saturation`
unfoldable pub observe_saturation : ℕ → ℕ → DegradationController → DegradationController
observe_saturation waiting limit c = record c {
  saturation =
      if eqb limit 0 then record { num = 0; den = 1 } else record { num = waiting; den = limit };
}

-- `failure_rate`; none for a division by 0
unfoldable pub failure_rate : DegradationController → Option Ratio
failure_rate c =
    if ltb (length c.outcomes) c.settings.min_samples
    then some (record { num = 0; den = 1 })
    else if eqb (length c.outcomes) 0
    then none
    else some (record { num = length (keep not c.outcomes); den = length c.outcomes })

-- The loop of `_target_level`, from the highest level
abbrev triggered : DegradationController → Ratio → Level → Bool
triggered c rate level =
    at_least rate (c.settings.failure_rate level)
    || at_least c.saturation (c.settings.saturation level)

unfoldable pub target_at : DegradationController → Ratio → Level
target_at c rate =
    if triggered c rate reject_writes
    then reject_writes
    else if triggered c rate lower_top_k
    then lower_top_k
    else if triggered c rate no_rerank
    then no_rerank
    else normal

-- `_switch`
abbrev counted : Level → Dict ℕ → ℕ
counted level transitions = elim (lookup (name level) transitions) [ none ↦ 1 | some n ↦ n + 1 ]

unfoldable pub switch : Level → ℕ → DegradationController → DegradationController
switch level at c = record c {
  level = level;
  level_since = at;
  transitions = insert (name level) (counted level c.transitions) c.transitions;
}

-- `level`, with the target
unfoldable pub settle_level : ℕ → Level → DegradationController → DegradationController
unfolding switch
settle_level at target c =
    if ltb (rank c.level) (rank target)
    then switch target at c
    else if ltb (rank target) (rank c.level)
    then if leb c.settings.recover_after (at - c.level_since)
      then switch (one_below c.level) at c
      else c
    else c

abbrev pub judged :
    ℕ → DegradationController → Option Ratio → Option (Level × DegradationController)
judged at c none = none
judged at c (some rate) = let c' = settle_level at (target_at c rate) c in some (c'.level, c')

-- `level`, which returns the level and leaves the controller
unfoldable pub current_level : ℕ → DegradationController → Option (Level × DegradationController)
unfolding failure_rate target_at settle_level
current_level at c = judged at c (failure_rate c)

-- `allow_rerank`, `accept_writes` and `adjust_top_k`, by the level
unfoldable pub allow_rerank : Level → Bool
allow_rerank level = ltb (rank level) 1

unfoldable pub accept_writes : Level → Bool
accept_writes level = ltb (rank level) 3

unfoldable pub adjust_top_k : DegradationSettings → Level → ℕ → ℕ
adjust_top_k s level top_k =
    if ltb (rank level) 2 then top_k else max 1 (top_k * s.top_k_factor.num / s.top_k_factor.den)
