-- ===== src/Tasks/States/Reach.antt =====
-- Which statuses a task can come to by legal changes.
use comet_rag.Prelude.{
  ◌≡◌, refl, sym, subst, ◌↔◌, Bool, true, false, ◌⊎◌, inl, inr, arith, ◌||◌, Bool-cases,
}
use comet_rag.Tasks.Status.{
  TaskStatus, pending, running, cancelling, succeeded, failed, cancelled, same, is_terminal,
}
use comet_rag.Tasks.States.{can_transition}

-- Legal changes one after another.
pub data Reach (a : TaskStatus) : TaskStatus → Type 0 where
  here : Reach a a
  next : {b c : TaskStatus} → Reach a b → can_transition b c ≡ true → Reach a c

pub Reach-trans : {a b c : TaskStatus} → Reach a b → Reach b c → Reach a c
Reach-trans r here = r
Reach-trans r (next s h) = next (Reach-trans r s) h

pub Reach-eq : {a b : TaskStatus} → b ≡ a → Reach a b
Reach-eq {a} e = subst (Reach a) (sym e) here

-- What `is_terminal` calls over, but for a failure, which `retry` opens again.
abbrev pub is_closed : TaskStatus → Bool
is_closed s = same s succeeded || same s cancelled

closed_stays : (a b : TaskStatus) → is_closed a ≡ true → can_transition a b ≡ true → b ≡ a
unfolding can_transition
closed_stays a b h k = ground arith

pub Reach-closed : {a b : TaskStatus} → is_closed a ≡ true → Reach a b → b ≡ a
Reach-closed h here = refl
Reach-closed {a} h (next {b = b} {c = c} r k) =
    let e = Reach-closed h r in closed_stays a c h (subst (λ s. can_transition s c ≡ true) e k)

from_pending : (b : TaskStatus) → Reach pending b
unfolding can_transition
from_pending pending = here
from_pending running = next here refl
from_pending cancelling = next {b = running} (next here refl) refl
from_pending succeeded = next {b = running} (next here refl) refl
from_pending failed = next here refl
from_pending cancelled = next here refl

open_reaches : (a b : TaskStatus) → is_closed a ≡ false → Reach a b
unfolding can_transition
open_reaches pending b h = from_pending b
open_reaches running b h = Reach-trans (next here refl) (from_pending b)
open_reaches cancelling b h = Reach-trans (next {b = failed} (next here refl) refl) (from_pending b)
open_reaches failed b h = Reach-trans (next here refl) (from_pending b)
open_reaches succeeded b h = cc
open_reaches cancelled b h = cc

-- A chain of legal status changes leads from one status to another exactly when they are the same
-- status or the first is neither SUCCEEDED nor CANCELLED: those two are the only dead ends, and
-- every other status, FAILED among them, can still come to each of the six.
pub Reach-iff : (a b : TaskStatus) → Reach a b ↔ ((b ≡ a) ⊎ (is_closed a ≡ false))
Reach-iff a b = (forth, back)
  where
    forth : Reach a b → (b ≡ a) ⊎ (is_closed a ≡ false)
    forth r = elim (Bool-cases (is_closed a)) [ inl h ↦ inl (Reach-closed h r) | inr h ↦ inr h ]

    back : (b ≡ a) ⊎ (is_closed a ≡ false) → Reach a b
    back (inl e) = subst (Reach a) (sym e) here
    back (inr h) = open_reaches a b h

-- A legal change out of a terminal status either keeps it or opens a FAILED task again to PENDING.
pub terminal_exit :
    (a b : TaskStatus)
    → is_terminal a ≡ true
    → can_transition a b ≡ true
    → (b ≡ a) ⊎ ((a ≡ failed) × (b ≡ pending))
unfolding is_terminal can_transition
terminal_exit a b h k = ground arith
