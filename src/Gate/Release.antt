-- ===== src/Gate/Release.antt =====
-- Who gets a slot that `Gate.release` gives up, and what a wait that fails leaves behind.
use comet_rag.Prelude.{
  ℕ, ◌+◌, ◌-◌, ◌≡◌, refl, ap, ◌∙◌, Bool, true, false, some, List, [], ◌∷◌, ◌++◌, arith,
  if◌then◌else◌, All, Bool-cases, inl, inr, ◌↔◌, ◌<◌,
}
use comet_rag.Gate.{
  Gate, ok, enter, hand_over, release, give_back, abandon, mem, after_wait, Wait, woken, timed_out,
  interrupted,
}

abbrev pub Asleep : (ℕ → Bool) → List ℕ → Type 0
Asleep awake ws = All (λ w. awake w ≡ false) ws

hand_over-first :
    (awake : ℕ → Bool) (dead rest : List ℕ) (w : ℕ) (g : Gate)
    → Asleep awake dead
    → awake w ≡ true
    → hand_over awake (dead ++ w ∷ rest) g ≡ (some w, enter (record g { waiters = rest }))
unfolding hand_over
hand_over-first awake [] rest w g asleep up = rw up
hand_over-first awake (d ∷ dead) rest w g asleep up =
    rw (asleep.0) (hand_over-first awake dead rest w g asleep.1 up)

hand_over-rejected :
    (awake : ℕ → Bool) (ws : List ℕ) (g : Gate) → (hand_over awake ws g).1.rejected ≡ g.rejected
unfolding hand_over enter
hand_over-rejected awake [] g = refl
hand_over-rejected awake (w ∷ ws) g = ground (arith, hand_over-rejected awake ws g)

release-rejected : (awake : ℕ → Bool) (g : Gate) → (release awake g).1.rejected ≡ g.rejected
unfolding release
release-rejected awake g = hand_over-rejected awake g.waiters _

give_back-rejected :
    (awake : ℕ → Bool) (w : ℕ) (b : Bool) (g : Gate)
    → (give_back awake w b g).1.rejected ≡ (if b then g.rejected + 1 else g.rejected)
unfolding give_back abandon
give_back-rejected awake w b g = elim (Bool-cases (mem w g.waiters)) [
  | inl queued ↦ rw queued
  | inr gone ↦ rw gone (release-rejected awake _)
]

-- `release` gives its slot to the waiter that has waited longest among those whose event loop can
-- still be woken, and the waiters before it, all of them dead, leave the queue with it: the calls
-- in flight are as many as before, no slot becomes free, one more call counts as admitted.
pub release-first :
    (awake : ℕ → Bool) (dead rest : List ℕ) (w : ℕ) (g : Gate)
    → g.waiters ≡ dead ++ w ∷ rest
    → 0 < g.in_flight
    → Asleep awake dead
    → awake w ≡ true
    → ((release awake g).0 ≡ some w)
      × ((release awake g).1.waiters ≡ rest)
      × ((release awake g).1.in_flight ≡ g.in_flight)
      × ((release awake g).1.available ≡ g.available)
      × ((release awake g).1.admitted ≡ g.admitted + 1)
unfolding release
release-first awake dead rest w g queue busy asleep up =
    let g' = record g { in_flight = g.in_flight - 1 } in
    let e =
      ap (λ ws. hand_over awake ws g') queue ∙ hand_over-first awake dead rest w g' asleep up in
    (
      ap (λ r. r.0) e,
      ap (λ r. r.1.waiters) e,
      ap (λ r. r.1.in_flight) e ∙ omega arith,
      ap (λ r. r.1.available) e,
      ap (λ r. r.1.admitted) e,
    )

-- However a wait ends, `acquire` counts a rejection for it exactly if it timed out, whether its
-- slot had been handed over meanwhile or not, and returns normally exactly if it was woken.
pub after_wait-counts :
    (awake : ℕ → Bool) (w : ℕ) (how : Wait) (g : Gate)
    → ((after_wait awake how w g).1.1.rejected
        ≡ (elim how [ timed_out ↦ g.rejected + 1 | woken ↦ g.rejected | interrupted ↦ g.rejected ]))
      × (((after_wait awake how w g).0 ≡ ok tt) ↔ (how ≡ woken))
unfolding after_wait
after_wait-counts awake w woken g = (refl, ((λ _. refl), (λ _. refl)))
after_wait-counts awake w timed_out g =
    (give_back-rejected awake w true g, ((λ e. absurd (cc)), (λ e. absurd (cc))))
after_wait-counts awake w interrupted g =
    (give_back-rejected awake w false g, ((λ e. absurd cc), (λ e. absurd cc)))
