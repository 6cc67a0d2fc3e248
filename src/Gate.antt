-- ===== src/Gate.antt =====
-- `Gate` of comet_rag/core/concurrency.py: the process-wide budget of calls in flight. Every
-- function here is one critical section under `_lock`. A waiter is a number of its own; `awake`
-- says whose event loop can still be woken. A wait ends in one of three ways, which the environment
-- chooses.
pub mod System
pub mod Release
use comet_rag.Prelude.{
  ℕ, zero, suc, ◌+◌, ◌-◌, Bool, true, false, ◌&&◌, not, Option, none, some, List, [], ◌∷◌, ◌++◌,
  eqb, ltb, leb, max, if◌then◌else◌, length,
}

pub record Gate : Type 0 where
  pub limit : ℕ
  pub max_waiting : ℕ
  pub available : ℕ
  pub waiters : List ℕ
  pub in_flight : ℕ
  pub peak_in_flight : ℕ
  pub peak_waiting : ℕ
  pub admitted : ℕ
  pub rejected : ℕ

pub data Error : Type 0 where
  overloaded_waiting overloaded_timeout cancelled loop_thread bad_limit : Error

pub data Result (A : Type 0) : Type 0 where
  ok : A → Result A
  err : Error → Result A

-- `Gate.__init__`
unfoldable pub new_gate : ℕ → ℕ → Result Gate
new_gate limit max_waiting =
    if eqb limit 0
    then err bad_limit
    else ok (record {
      limit = limit;
      max_waiting = max_waiting;
      available = limit;
      waiters = [];
      in_flight = 0;
      peak_in_flight = 0;
      peak_waiting = 0;
      admitted = 0;
      rejected = 0;
    })

-- `reset_peaks`
unfoldable pub reset_peaks : Gate → Gate
reset_peaks g = record g { peak_in_flight = g.in_flight; peak_waiting = length g.waiters }

-- `_enter_locked`
unfoldable pub enter : Gate → Gate
enter g = record g {
  in_flight = g.in_flight + 1;
  admitted = g.admitted + 1;
  peak_in_flight = max g.peak_in_flight (g.in_flight + 1);
}

abbrev pub enqueue : ℕ → Gate → Gate
enqueue w g =
    let ws = g.waiters ++ w ∷ [] in
    record g { waiters = ws; peak_waiting = max g.peak_waiting (length ws) }

-- `_try_take`: none if a slot was free, the waiter if it has to queue
unfoldable pub try_take : ℕ → Gate → Result (Option ℕ) × Gate
unfolding enter
try_take w g =
    if ltb 0 g.available
    then (ok none, enter (record g { available = g.available - 1 }))
    else if ltb 0 g.max_waiting && leb g.max_waiting (length g.waiters)
    then (err overloaded_waiting, record g { rejected = g.rejected + 1 })
    else (ok (some w), enqueue w g)

unfoldable pub mem : ℕ → List ℕ → Bool
mem w [] = false
mem w (x ∷ xs) = let rest = mem w xs in if eqb x w then true else rest

-- `deque.remove`: the first one only
unfoldable pub erase : ℕ → List ℕ → List ℕ
erase w [] = []
erase w (x ∷ xs) = let rest = erase w xs in if eqb x w then xs else x ∷ rest

abbrev pub count_rejected : Bool → Gate → Gate
count_rejected rejected g = record g { rejected = if rejected then g.rejected + 1 else g.rejected }

-- `_abandon`: true if the slot had been handed over already
unfoldable pub abandon : ℕ → Bool → Gate → Bool × Gate
unfolding mem erase
abandon w rejected g =
    if mem w g.waiters
    then (false, record (count_rejected rejected g) { waiters = erase w g.waiters })
    else (true, count_rejected rejected g)

-- The loop of `release`: the first waiter that can be woken gets the slot; none frees it.
unfoldable pub hand_over : (ℕ → Bool) → List ℕ → Gate → Option ℕ × Gate
unfolding enter
hand_over awake [] g = (none, record g { waiters = []; available = g.available + 1 })
hand_over awake (w ∷ ws) g =
    let rest = hand_over awake ws g in
    if awake w then (some w, enter (record g { waiters = ws })) else rest

-- `release`, with the waiter that has the slot now
unfoldable pub release : (ℕ → Bool) → Gate → Option ℕ × Gate
unfolding hand_over
release awake g = hand_over awake g.waiters (record g { in_flight = g.in_flight - 1 })

-- `_give_back`
unfoldable pub give_back : (ℕ → Bool) → ℕ → Bool → Gate → Option ℕ × Gate
unfolding abandon release
give_back awake w rejected g =
    let (handed, g') = abandon w rejected g in if handed then release awake g' else (none, g')

pub data Wait : Type 0 where
  woken timed_out interrupted : Wait

-- `acquire` after the wait
unfoldable pub after_wait : (ℕ → Bool) → Wait → ℕ → Gate → Result (Unit {0}) × (Option ℕ × Gate)
unfolding give_back
after_wait awake woken w g = (ok tt, (none, g))
after_wait awake timed_out w g = (err overloaded_timeout, give_back awake w true g)
after_wait awake interrupted w g = (err cancelled, give_back awake w false g)

-- `acquire_sync` after it has queued: on an event loop's thread it gives up at once.
unfoldable pub after_wait_sync :
    (ℕ → Bool) → Bool → Bool → ℕ → Gate → Result (Unit {0}) × (Option ℕ × Gate)
unfolding give_back
after_wait_sync awake on_loop set_in_time w g =
    if on_loop
    then (err loop_thread, give_back awake w false g)
    else if set_in_time
    then (ok tt, (none, g))
    else (err overloaded_timeout, give_back awake w true g)
