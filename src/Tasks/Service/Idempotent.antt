-- ===== src/Tasks/Service/Idempotent.antt =====
-- A second submission under an idempotency key.
use comet_rag.Prelude.{
  ℕ, suc, String, ◌≡◌, refl, ap, ◌∙◌, Bool, true, false, ◌&&◌, Option, none, some, List, [], ◌∷◌,
  ◌⊎◌, inl, inr, arith, ◌==◌, eq_iff, eq_refl, any, find, All, get_elem?, if◌then◌else◌, neither,
  Bool-cases, All-map, sym,
}
use comet_rag.Dict.{lookup, values, lookup-insert_own}
use comet_rag.Tasks.Value.{Value}
use comet_rag.Tasks.Error.{type_error}
use comet_rag.Tasks.Models.{Task, new_task, created_note}
use comet_rag.Tasks.Models.Fields
use comet_rag.Tasks.Models.Fields.{Field, setattr, set_fields}
use comet_rag.Tasks.Effect.{Db, World, Result, ok, M, pure, raise, now, ◌>>=◌}
use comet_rag.Tasks.Effect.Runs.{quiet, bind_returns, atomic-quiet, now_lem}
use comet_rag.Tasks.Memory.{is_text, twin, insert_locked, insert_task, append_event}
use comet_rag.Tasks.Store.Quiet.{with_task, append-quiet}
use comet_rag.Tasks.Store.{clashes, announce, create}

record SameKey (t u : Task) : Type 0 where
  task_id : u.task_id ≡ t.task_id
  kind : u.kind ≡ t.kind
  key : u.idempotency_key ≡ t.idempotency_key

setattr-SameKey : (f : Field) (t : Task) → clashes f ≡ false → SameKey t (setattr f t)
unfolding setattr
setattr-SameKey (Fields.task_id v) t h = absurd cc
setattr-SameKey (Fields.kind v) t h = absurd cc
setattr-SameKey (Fields.idempotency_key v) t h = absurd cc
setattr-SameKey _ t h = record { task_id = refl; kind = refl; key = refl }

set_fields-SameKey :
    (fs : List Field) (t : Task) → any clashes fs ≡ false → SameKey t (set_fields fs t)
unfolding set_fields
set_fields-SameKey [] t h = record { task_id = refl; kind = refl; key = refl }
set_fields-SameKey (f ∷ fs) t h =
    let (first, rest) = neither (clashes f) (any clashes fs) h in
    let a = setattr-SameKey f t first in
    let b = set_fields-SameKey fs (setattr f t) rest in
    record { task_id = b.task_id ∙ a.task_id; kind = b.kind ∙ a.kind; key = b.key ∙ a.key }

module _ {A : Type 0} (p : A → Bool) where
  -- What a search finds: an element that passes, or nothing since none does.
  find-cases :
      (xs : List A)
      → ((i : ℕ) × (x : A) × (find p xs ≡ some x) × (get_elem? xs i ≡ some x) × (p x ≡ true))
        ⊎ ((find p xs ≡ none) × All (λ x. p x ≡ false) xs)
  find-cases [] = inr (refl, tt)
  find-cases (x ∷ xs) = elim (Bool-cases (p x)) [
    | inl y ↦ inl (0, x, ap (λ b. if b then some x else find p xs) y, refl, y)
    | inr n ↦ elim (find-cases xs) [
      | inl (i, a, e, at, y) ↦
          inl (suc i, a, ap (λ b. if b then some x else find p xs) n ∙ e, at, y)
      | inr (e, none_of) ↦ inr (ap (λ b. if b then some x else find p xs) n ∙ e, (n, none_of))
    ]
  ]

-- The task has this kind and stands under this key.
abbrev pub IsUnder : String → String → Task → Type 0
IsUnder kind key t = (t.kind ≡ kind) × (t.idempotency_key ≡ some key)

is_text_lem : (o : Option String) (k : String) → is_text o k ≡ true → o ≡ some k
is_text_lem none k e = absurd (cc)
is_text_lem (some j) k e = ap some ((eq_iff j k).0 e)

abbrev is_twin : String → String → Task → Bool
is_twin kind key t = t.kind == kind && is_text t.idempotency_key key

is_twin-IsUnder : (kind key : String) (t : Task) → is_twin kind key t ≡ true → IsUnder kind key t
is_twin-IsUnder kind key t e = (
  (eq_iff t.kind kind).0 (ground (arith, e)),
  is_text_lem t.idempotency_key key (ground (arith, e)),
)

IsUnder-is_twin : (kind key : String) (t : Task) → IsUnder kind key t → is_twin kind key t ≡ true
IsUnder-is_twin kind key t (k, e) =
    ground (arith, (eq_iff t.kind kind).1 k, ap (λ o. is_text o key) e ∙ eq_refl key)

insert_locked-twin :
    (u t : Task) (d : Db)
    → twin u.kind u.idempotency_key (values d.tasks) ≡ some t
    → insert_locked u d ≡ (ok (t, false), d)
insert_locked-twin u t d h = rw (h, insert_locked)

insert_locked-new :
    (u : Task) (d : Db)
    → twin u.kind u.idempotency_key (values d.tasks) ≡ none
    → insert_locked u d ≡ (ok (u, true), with_task d u)
insert_locked-new u d h = rw (h, insert_locked)

module _ (id kind : String) (request : Value) (owner : Option String) (key : String)
    (max_attempts : ℕ) (fields : List Field) (d : Db) where
  abbrev fresh : Task
  fresh = set_fields fields (new_task id kind request owner (some key) max_attempts d.clock)

  abbrev run : Result Task × World
  run = create id kind request owner (some key) max_attempts fields (quiet d)

  fresh-SameKey :
      any clashes fields ≡ false
      → (fresh.task_id ≡ id) × (fresh.kind ≡ kind) × (fresh.idempotency_key ≡ some key)
  unfolding new_task
  fresh-SameKey fine =
      let same =
        set_fields-SameKey fields (new_task id kind request owner (some key) max_attempts d.clock)
          fine in
      (same.task_id, same.kind, same.key)

  fresh-twin :
      any clashes fields ≡ false
      → (key == "") ≡ false
      → twin fresh.kind fresh.idempotency_key (values d.tasks)
        ≡ find (is_twin kind key) (values d.tasks)
  fresh-twin fine real =
      let (i, k, e) = fresh-SameKey fine in
      ap (λ k. twin k fresh.idempotency_key (values d.tasks)) k
      ∙ ap (λ e. twin kind e (values d.tasks)) e
      ∙ ap (λ b. if b then none else find (is_twin kind key) (values d.tasks)) real

  create-inserts :
      (r : Task × Bool) (e : Db)
      → any clashes fields ≡ false
      → insert_locked fresh d ≡ (ok r, e)
      → run ≡ announce r (quiet e)
  unfolding create insert_task
  create-inserts r e fine inserted =
      let store : ℕ → M Task = λ at.
        insert_task (set_fields fields (new_task id kind request owner (some key) max_attempts at))
        >>= announce in
      ap (λ b. (if b then raise (type_error "create") else (now >>= store)) (quiet d)) fine
      ∙ bind_returns now store (quiet d) (quiet d) d.clock (now_lem (quiet d))
      ∙ bind_returns (insert_task fresh) announce (quiet d) (quiet e) r
          (atomic-quiet (insert_locked fresh) d ∙ ap (λ r. (r.0, quiet r.1)) inserted)

  -- The task that was there under the key, with nothing changed, or a new one where none was.
  abbrev pub Once : Task → Type 0
  Once u =
      ((i : ℕ) × (get_elem? (values d.tasks) i ≡ some u) × (run.1 ≡ quiet d))
      ⊎ (All (λ t. ¬ IsUnder kind key t) (values d.tasks)
          × (u.task_id ≡ id)
          × (lookup id run.1.db.tasks ≡ some u))

  announced :
      (u : Task) (e : Db)
      → (announce (u, true) (quiet e)).0 ≡ ok u
        × ((announce (u, true) (quiet e)).1.db.tasks ≡ e.tasks)
  unfolding pure
  announced u e =
      let r =
        bind_returns (append_event u.task_id "created" (created_note u.kind) []) (λ _. pure u)
          (quiet e) _ _ (append-quiet u.task_id "created" (created_note u.kind) [] e) in
      (ap (λ r. r.0) r, ap (λ r. r.1.db.tasks) r)

  -- Nobody interrupts. A submission under a key that is no empty text, with keyword arguments that
  -- Python accepts, returns a task of the kind that stands under the key. It is one of the table,
  -- and then nothing has changed, no second task and no event; or no task of the table had this kind
  -- and this key, and then it is a new one, and stands in the table under the new id.
  pub create-Once :
      any clashes fields ≡ false
      → (key == "") ≡ false
      → (u : Task) × (run.0 ≡ ok u) × IsUnder kind key u × Once u
  unfolding pure
  create-Once fine real =
      let found = fresh-twin fine real in
      let (filed, kinds, keys) = fresh-SameKey fine in
      elim (find-cases (is_twin kind key) (values d.tasks)) [
        | inl (i, t, e, at, y) ↦
            let r = create-inserts (t, false) d fine (insert_locked-twin fresh t d (found ∙ e)) in
            (t, ap (λ r. r.0) r, is_twin-IsUnder kind key t y, inl (i, at, ap (λ r. r.1) r))
        | inr (e, others) ↦
            let r =
              create-inserts (fresh, true) (with_task d fresh) fine
                (insert_locked-new fresh d (found ∙ e)) in
            let a = announced fresh (with_task d fresh) in
            (
              fresh,
              ap (λ r. r.0) r ∙ a.0,
              (kinds, keys),
              inr (
                All-map (λ t n u. let b = IsUnder-is_twin kind key t u in absurd (cc))
                    (values d.tasks) others,
                filed,
                ap (λ r. lookup id r.1.db.tasks) r
                    ∙ ap (lookup id) a.1
                    ∙ ap (λ j. lookup j (with_task d fresh).tasks) (sym filed)
                    ∙ lookup-insert_own fresh.task_id fresh d.tasks,
              ),
            )
      ]
