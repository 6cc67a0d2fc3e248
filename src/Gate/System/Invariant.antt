-- ===== src/Gate/System/Invariant.antt =====
-- The bookkeeping of the gate under any order of steps: no slot is lost or made up.
use comet_rag.Prelude.{
  ℕ, suc, ◌+◌, ◌-◌, ◌≤◌, ◌<◌, ◌≡◌, refl, sym, ◌∙◌, subst, Bool, true, false, Option, some, List, [],
  ◌∷◌, arith, ◌⊎◌, inl, inr, length, length-append, if◌then◌else◌, Bool-cases,
}
use comet_rag.Gate.{Gate, ok, new_gate, enter, release, hand_over, give_back, abandon, mem, erase}
use comet_rag.Gate.System.{
  System, granted, arrive, finish, give_up, Step, arrives, finishes, gives_up, Reach, here, next,
}

length-erase : (w : ℕ) (xs : List ℕ) → mem w xs ≡ true → length (erase w xs) + 1 ≡ length xs
unfolding mem erase
length-erase w [] h = cc
length-erase w (x ∷ xs) h = ground (arith, length-erase w xs)

-- What handing over the slot of a call that has ended leaves, with n waiters before.
record Handed (n : ℕ) (hs : List ℕ) (g : Gate) (r : Option ℕ × Gate) : Type 0 where
  slots : r.1.available + r.1.in_flight ≡ g.available + g.in_flight + 1
  limit : r.1.limit ≡ g.limit
  held : length (granted r.0 hs) ≡ r.1.in_flight
  busy : (0 < r.1.available) → r.1.waiters ≡ []
  room : length r.1.waiters ≤ n
  bound : r.1.max_waiting ≡ g.max_waiting
  peak : r.1.in_flight ≤ r.1.peak_in_flight

widen :
    (n : ℕ) (hs : List ℕ) (g : Gate) (r : Option ℕ × Gate) → Handed n hs g r → Handed (suc n) hs g r
widen n hs g r h = record {
  slots = h.slots;
  limit = h.limit;
  held = h.held;
  busy = h.busy;
  room = omega (arith, h.room);
  bound = h.bound;
  peak = h.peak;
}

hand_over-Handed :
    (awake : ℕ → Bool) (ws hs : List ℕ) (g : Gate)
    → length hs ≡ g.in_flight
    → g.in_flight ≤ g.peak_in_flight
    → ((0 < g.available) → ws ≡ [])
    → Handed (length ws) hs g (hand_over awake ws g)
unfolding hand_over enter
hand_over-Handed awake [] hs g held peak busy = ground arith
hand_over-Handed awake (w ∷ ws) hs g held peak busy =
    let full : g.available ≡ 0 = ground (arith, busy) in
    elim (awake w)
      as (λ b.
        Handed (suc (length ws)) hs g
          (if b then (some w, enter (record g { waiters = ws })) else hand_over awake ws g)) [
            | true ↦ record {
              slots = omega arith;
              limit = refl;
              held = omega arith;
              busy = λ h. absurd (omega arith);
              room = omega arith;
              bound = refl;
              peak = ground arith;
            }
            | false ↦
                widen (length ws) hs g (hand_over awake ws g)
                  (hand_over-Handed awake ws hs g held peak (λ h. absurd (omega arith)))
          ]

abbrev dropped : ℕ → Bool → System → System
dropped w rejected s = record s {
  gate = record s.gate {
    rejected = if rejected then s.gate.rejected + 1 else s.gate.rejected;
    waiters = erase w s.gate.waiters;
  };
}

abbrev counted : Bool → System → System
counted rejected s = record s {
  gate = record s.gate { rejected = if rejected then s.gate.rejected + 1 else s.gate.rejected };
}

give_up-queued :
    (awake : ℕ → Bool) (w : ℕ) (rejected : Bool) (s : System)
    → mem w s.gate.waiters ≡ true
    → give_up awake w rejected s ≡ dropped w rejected s
unfolding give_up give_back abandon
give_up-queued awake w rejected s h = rw h

give_up-granted :
    (awake : ℕ → Bool) (w : ℕ) (rejected : Bool) (s : System)
    → mem w s.gate.waiters ≡ false
    → give_up awake w rejected s ≡ finish awake w (counted rejected s)
unfolding give_up give_back abandon finish
give_up-granted awake w rejected s h = rw h

abbrev pub idle : Gate → System
idle g = record { gate = g; holding = [] }

module _ (l m : ℕ) where
  -- The books of a gate of l slots and a queue of at most m, 0 for no bound.
  pub record Inv (s : System) : Type 0 where
    pub limit : s.gate.limit ≡ l
    pub bound : s.gate.max_waiting ≡ m
    pub slots : s.gate.available + s.gate.in_flight ≡ l
    pub held : length s.holding ≡ s.gate.in_flight
    pub busy : (0 < s.gate.available) → s.gate.waiters ≡ []
    pub room : (m ≡ 0) ⊎ (length s.gate.waiters ≤ m)
    pub peak : s.gate.in_flight ≤ s.gate.peak_in_flight

  arrive-Inv : (w : ℕ) (s : System) → Inv s → Inv (arrive w s)
  unfolding arrive
  arrive-Inv w s v = ground (arith, v.busy, length-append s.gate.waiters (w ∷ []))

  finish-Inv :
      (awake : ℕ → Bool) (w : ℕ) (s : System)
      → mem w s.holding ≡ true
      → Inv s
      → Inv (finish awake w s)
  unfolding finish release
  finish-Inv awake w s h v =
      let one = length-erase w s.holding h in
      let held : length (erase w s.holding) ≡ s.gate.in_flight - 1 = omega (arith, v.held) in
      let r =
        hand_over-Handed awake s.gate.waiters (erase w s.holding)
          (record s.gate { in_flight = s.gate.in_flight - 1 }) held (omega (arith, v.peak))
          v.busy in
      record {
        limit = r.limit ∙ v.limit;
        bound = r.bound ∙ v.bound;
        slots = omega (arith, r.slots, v.slots, v.held);
        held = r.held;
        busy = r.busy;
        room = elim v.room [ inl e ↦ inl e | inr le ↦ inr (omega (arith, r.room)) ];
        peak = r.peak;
      }

  dropped-Inv :
      (w : ℕ) (rejected : Bool) (s : System)
      → mem w s.gate.waiters ≡ true
      → Inv s
      → Inv (dropped w rejected s)
  dropped-Inv w rejected s h v =
      let one = length-erase w s.gate.waiters h in
      record {
        limit = v.limit;
        bound = v.bound;
        slots = v.slots;
        held = v.held;
        busy = λ free. absurd (ground (arith, v.busy));
        room = elim v.room [ inl e ↦ inl e | inr le ↦ inr (omega arith) ];
        peak = v.peak;
      }

  give_up-Inv :
      (awake : ℕ → Bool) (w : ℕ) (rejected : Bool) (s : System)
      → (mem w s.gate.waiters ≡ true) ⊎ (mem w s.holding ≡ true)
      → Inv s
      → Inv (give_up awake w rejected s)
  give_up-Inv awake w rejected s h v = elim (Bool-cases (mem w s.gate.waiters)) [
    | inl queued ↦
        subst Inv (sym (give_up-queued awake w rejected s queued))
          (dropped-Inv w rejected s queued v)
    | inr left ↦ subst Inv (sym (give_up-granted awake w rejected s left)) (
        finish-Inv awake w (counted rejected s) (ground (arith, h)) (record {
          limit = v.limit;
          bound = v.bound;
          slots = v.slots;
          held = v.held;
          busy = v.busy;
          room = v.room;
          peak = v.peak;
        }))
  ]

  Step-Inv : (s t : System) → Step s t → Inv s → Inv t
  Step-Inv s _ (arrives w) v = arrive-Inv w s v
  Step-Inv s _ (finishes awake w h) v = finish-Inv awake w s h v
  Step-Inv s _ (gives_up awake w r h) v = give_up-Inv awake w r s h v

  pub Reach-Inv : (s t : System) → Reach s t → Inv s → Inv t
  Reach-Inv s _ here v = v
  Reach-Inv s _ (next {t = t} {u = u} r step) v = Step-Inv t u step (Reach-Inv s t r v)

new-Inv :
    (limit max_waiting : ℕ) (g : Gate)
    → new_gate limit max_waiting ≡ ok g
    → Inv limit max_waiting (idle g)
unfolding new_gate
new-Inv limit max_waiting g made = ground arith

-- A gate that `Gate(limit, max_waiting)` makes, after any number of steps by any users in any order
-- (an arrival, the release of a slot that is held, a wait that times out or is cancelled while the
-- waiter is queued or after it was handed a slot): the slots in use and the free slots are `limit`
-- together, as many calls hold a slot as `in_flight` says, and nobody waits while a slot is free.
pub slots-Reach :
    (limit max_waiting : ℕ) (g : Gate) (s : System)
    → new_gate limit max_waiting ≡ ok g
    → Reach (idle g) s
    → (s.gate.available + s.gate.in_flight ≡ limit)
      × (length s.holding ≡ s.gate.in_flight)
      × ((0 < s.gate.available) → s.gate.waiters ≡ [])
slots-Reach limit max_waiting g s made r =
    let v = Reach-Inv limit max_waiting (idle g) s r (new-Inv limit max_waiting g made) in
    (v.slots, v.held, v.busy)

-- A gate with a bound on its queue, after any steps of its users: at most `max_waiting` calls wait,
-- at most `limit` run, and the peak it reports is no smaller than the number that run now.
pub room-Reach :
    (limit max_waiting : ℕ) (g : Gate) (s : System)
    → new_gate limit max_waiting ≡ ok g
    → 0 < max_waiting
    → Reach (idle g) s
    → (length s.gate.waiters ≤ max_waiting)
      × (s.gate.in_flight ≤ limit)
      × (s.gate.in_flight ≤ s.gate.peak_in_flight)
room-Reach limit max_waiting g s made bounded r =
    let v = Reach-Inv limit max_waiting (idle g) s r (new-Inv limit max_waiting g made) in
    (ground (arith, v.room), omega (arith, v.slots), v.peak)
