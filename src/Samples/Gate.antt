-- ===== src/Samples/Gate.antt =====
-- A gate of one slot and one place in its queue, with three users: runs of
-- comet_rag/core/concurrency.py.
use comet_rag.Prelude.{
  ℕ, ◌+◌, ◌≤◌, ◌<◌, ◌≡◌, refl, ◌↔◌, Bool, true, some, [], ◌∷◌, arith, length, eqb, not,
}
use comet_rag.Gate.{Gate, ok, new_gate, try_take, enter, release, after_wait, timed_out, woken, mem}
use comet_rag.Gate.System.{System, arrives, finishes, Reach, here, next, arrive, finish}
use comet_rag.Gate.System.Invariant.{idle, slots-Reach, room-Reach}
use comet_rag.Gate.Release.{release-first, after_wait-counts}

abbrev small : Gate
small = record {
  limit = 1;
  max_waiting = 1;
  available = 1;
  waiters = [];
  in_flight = 0;
  peak_in_flight = 0;
  peak_waiting = 0;
  admitted = 0;
  rejected = 0;
}

abbrev all_awake : ℕ → Bool
all_awake w = true

abbrev last : System
last = finish all_awake 1 (arrive 2 (arrive 1 (idle small)))

-- The first call holds the slot, the second waits for it and gets it.
last-reached : Reach (idle small) last
unfolding arrive finish try_take enter mem
last-reached = next (next (next here (arrives 1)) (arrives 2)) (finishes all_awake 1 refl)

slots-Reach_example :
    (last.gate.available + last.gate.in_flight ≡ 1)
    × (length last.holding ≡ last.gate.in_flight)
    × ((0 < last.gate.available) → last.gate.waiters ≡ [])
unfolding new_gate
slots-Reach_example = slots-Reach 1 1 small last refl last-reached

room-Reach_example :
    (length last.gate.waiters ≤ 1)
    × (last.gate.in_flight ≤ 1)
    × (last.gate.in_flight ≤ last.gate.peak_in_flight)
unfolding new_gate
room-Reach_example = room-Reach 1 1 small last refl (omega arith) last-reached

abbrev but_seven : ℕ → Bool
but_seven w = not (eqb w 7)

abbrev queued : Gate
queued = record small { available = 0; in_flight = 1; waiters = 7 ∷ 8 ∷ 9 ∷ [] }

release-first_example :
    ((release but_seven queued).0 ≡ some 8)
    × ((release but_seven queued).1.waiters ≡ 9 ∷ [])
    × ((release but_seven queued).1.in_flight ≡ 1)
    × ((release but_seven queued).1.available ≡ 0)
    × ((release but_seven queued).1.admitted ≡ 1)
release-first_example =
    release-first but_seven (7 ∷ []) (9 ∷ []) 8 queued refl (omega arith) (refl, tt) refl

after_wait-counts_example :
    ((after_wait but_seven timed_out 8 queued).1.1.rejected ≡ 1)
    × (((after_wait but_seven timed_out 8 queued).0 ≡ ok tt) ↔ (timed_out ≡ woken))
after_wait-counts_example = after_wait-counts but_seven 8 timed_out queued
