-- ===== src/Tasks/Store/Primitives.antt =====
-- The methods of the in-memory store keep every task legal.
use comet_rag.Prelude.{
  ℕ, String, ◌≡◌, refl, subst, Bool, false, Option, none, some, arith, eq_iff, eqb, ◌==◌,
  Bool-cases, Option-cases, inl, inr, if◌then◌else◌, eqb→eq,
}
use comet_rag.Dict.{Dict, lookup, insert, erase, lookup-insert, lookup-erase}
use comet_rag.Tasks.States.Reach.{Reach}
use comet_rag.Tasks.Models.{Task, Message}
use comet_rag.Tasks.Effect.{Db, World, Result, pause, atomic, ◌>>◌}
use comet_rag.Tasks.Effect.Keeps.{
  Keeps, Step, Friendly, Keeps-bind, Keeps-pause, Keeps-atomic, paused_step,
}
use comet_rag.Tasks.Memory.{
  Query, save, load, remove, remove_locked, query, events, append_event, save_locked, next_version,
  append_locked,
}
use comet_rag.Tasks.Store.Legal.{Change, Moves, Moves-refl, IsFiled, Legal, Legal-preorder}

-- A write of `u` under its own id, over a task that `u` may follow.
put-Legal :
    (j : String) (c u : Task) (d e : Db)
    → lookup u.task_id d.tasks ≡ some c
    → (u.task_id ≡ j → Change c u)
    → e.tasks ≡ insert u.task_id u d.tasks
    → Legal j d e
put-Legal j c u d e found change written f = (filed, moves)
  where
    entry : (i : String) → lookup i e.tasks ≡ (if u.task_id == i then some u else lookup i d.tasks)
    entry i = rw written (lookup-insert u.task_id i u d.tasks)

    filed : IsFiled e
    filed i t at = ground (arith, entry i, eq_iff u.task_id i, f i t)

    moves : Moves (lookup j d.tasks) (lookup j e.tasks)
    moves = elim (Bool-cases (u.task_id == j)) [
      | inl hit ↦
          let found' : lookup j d.tasks ≡ some c =
            subst (λ i. lookup i d.tasks ≡ some c) ((eq_iff u.task_id j).0 hit) found in
          rw (found', entry j, hit) (change ((eq_iff u.task_id j).0 hit))
      | inr miss ↦ rw (entry j, miss) (Moves-refl (lookup j d.tasks))
    ]

-- A read keeps everything.
read-Legal :
    (j : String) (A : Type 0) (f : Db → Result A)
    → Keeps (Legal-preorder j) (pause >> atomic (λ d. (f d, d)))
read-Legal j A f =
    Keeps-bind (Legal-preorder j) _ _ (Keeps-pause (Legal-preorder j))
      (λ _. Keeps-atomic (Legal-preorder j) _ (λ d h. (h, Moves-refl (lookup j d.tasks))))

pub load-Legal : (j i : String) → Keeps (Legal-preorder j) (load i)
unfolding load
load-Legal j i = read-Legal j _ _

pub query-Legal : (j : String) (q : Query) → Keeps (Legal-preorder j) (query q)
unfolding query
query-Legal j q = read-Legal j _ _

pub events-Legal : (j i : String) (after : ℕ) → Keeps (Legal-preorder j) (events i after)
unfolding events
events-Legal j i after = read-Legal j _ _

pub append_event-Legal :
    (j i type : String) (message : Message) (payload : Dict (Option String))
    → Keeps (Legal-preorder j) (append_event i type message payload)
unfolding append_event
append_event-Legal j i type message payload =
    Keeps-bind (Legal-preorder j) _ _ (Keeps-pause (Legal-preorder j)) (λ _.
      Keeps-atomic (Legal-preorder j) (append_locked i type message payload)
        (λ d h. (h, Moves-refl (lookup j d.tasks))))

erase-Legal : (j i : String) (d e : Db) → e.tasks ≡ erase i d.tasks → Legal j d e
erase-Legal j i d e written f = (filed, moves)
  where
    entry : (k : String) → lookup k e.tasks ≡ (if i == k then none else lookup k d.tasks)
    entry k = rw written (lookup-erase i k d.tasks)

    filed : IsFiled e
    filed k t at = ground (arith, entry k, f k t)

    gone : (o : Option Task) → Moves o none
    gone none = refl
    gone (some t) = tt

    moves : Moves (lookup j d.tasks) (lookup j e.tasks)
    moves = elim (Bool-cases (i == j)) [
      | inl hit ↦ rw (entry j, hit) (gone (lookup j d.tasks))
      | inr miss ↦ rw (entry j, miss) (Moves-refl (lookup j d.tasks))
    ]

pub remove-Legal : (j i : String) → Keeps (Legal-preorder j) (remove i)
unfolding remove
remove-Legal j i = Keeps-bind (Legal-preorder j) _ _ (Keeps-pause (Legal-preorder j)) (λ _.
    Keeps-atomic (Legal-preorder j) (remove_locked i)
      (λ d. erase-Legal j i d (remove_locked i d).1 refl))

-- What a compare-and-set may write: `u` in place of the `t` that was read.
pub record Follows (bump : Bool) (t u : Task) : Type 0 where
  pub version : u.version ≡ t.version
  pub path : Reach t.status u.status
  pub at_rest : bump ≡ false → u.status ≡ t.status

Follows-Change :
    (bump : Bool) (t c u : Task)
    → Follows bump t u
    → Change t c
    → c.version ≡ u.version
    → Change c (next_version u u.version bump)
Follows-Change bump t c u w s e =
    let same_status : c.status ≡ t.status = s.at_rest (omega (arith, w.version)) in
    record {
      version_le = ground arith;
      at_rest = λ k. rw same_status (w.at_rest (ground arith));
      path = rw same_status w.path;
    }

save_locked-Legal :
    (j : String) (t u : Task) (bump : Bool) (d : Db)
    → Follows bump t u
    → (u.task_id ≡ j → Moves (some t) (lookup j d.tasks))
    → Legal j d (save_locked u u.version bump d).1
save_locked-Legal j t u bump d w m = elim (Option-cases (lookup u.task_id d.tasks)) [
  | inl missing ↦ rw (missing, save_locked) (λ f. (f, Moves-refl (lookup j d.tasks)))
  | inr (c, found) ↦ elim (Bool-cases (eqb c.version u.version)) [
    | inl hit ↦
        rw (found, save_locked, hit)
          (put-Legal j c (next_version u u.version bump) d
            (record d { tasks = insert u.task_id (next_version u u.version bump) d.tasks }) found
            (λ e.
              Follows-Change bump t c u w
                (rw (subst (λ i. lookup i d.tasks ≡ some c) e found) at (m e)) (eqb→eq _ _ hit))
            refl)
    | inr miss ↦ rw (found, save_locked, miss) (λ f. (f, Moves-refl (lookup j d.tasks)))
  ]
]

-- `save` after a read at `w` that found `t`.
pub save_step :
    (j : String) (t u : Task) (bump : Bool) (w : World)
    → Follows bump t u
    → (IsFiled w.db → lookup u.task_id w.db.tasks ≡ some t)
    → Friendly (Legal-preorder j) w.others
    → Step (Legal-preorder j) w (save u u.version bump w).1
unfolding save atomic
save_step j t u bump w follows read h =
    paused_step (Legal-preorder j) (atomic (save_locked u u.version bump)) w h λ v s. record {
      moved = λ f.
          (Legal-preorder j).trans w.db v.db (save_locked u u.version bump v.db).1 s.moved
            (save_locked-Legal j t u bump v.db follows
              (λ e. rw (subst (λ i. lookup i w.db.tasks ≡ some t) e (read f)) at (s.moved f).1))
            f;
      friendly = s.friendly;
    }
