-- ===== src/Tasks/Store/Legal.antt =====
-- What no method of the store, and so no interleaving of them, ever does to a task: change its
-- status against the table, turn its version back, or change its status under an old version.
use comet_rag.Prelude.{◌≤◌, String, ◌≡◌, refl, ◌∙◌, Option, none, some, arith}
use comet_rag.Dict.{lookup}
use comet_rag.Tasks.States.Reach.{Reach, here, Reach-trans}
use comet_rag.Tasks.Models.{Task}
use comet_rag.Tasks.Effect.{Db}
use comet_rag.Tasks.Effect.Keeps.{Preorder}

-- The two records stand one after the other under one id.
pub record Change (t u : Task) : Type 0 where
  pub version_le : t.version ≤ u.version
  pub at_rest : t.version ≡ u.version → u.status ≡ t.status
  pub path : Reach t.status u.status

-- A task may go; none comes back under its id.
abbrev pub Moves : Option Task → Option Task → Type 0
Moves none o = o ≡ none
Moves (some t) none = Unit {0}
Moves (some t) (some u) = Change t u

Change-trans : {t u v : Task} → Change t u → Change u v → Change t v
Change-trans c d = record {
  version_le = omega (arith, c.version_le, d.version_le);
  at_rest = λ e.
      d.at_rest (omega (arith, c.version_le, d.version_le))
      ∙ c.at_rest (omega (arith, c.version_le, d.version_le));
  path = Reach-trans c.path d.path;
}

pub Moves-refl : (o : Option Task) → Moves o o
Moves-refl none = refl
Moves-refl (some t) = record { version_le = omega arith; at_rest = λ e. refl; path = here }

Moves-trans : (a b c : Option Task) → Moves a b → Moves b c → Moves a c
Moves-trans none b c m n = Moves-none b c m n
  where
    Moves-none : (b c : Option Task) → b ≡ none → Moves b c → c ≡ none
    Moves-none none c e n = n
    Moves-none (some t) c e n = cc
Moves-trans (some t) none c m n = rw n tt
Moves-trans (some t) (some u) none m n = tt
Moves-trans (some t) (some u) (some v) m n = Change-trans m n

-- Each record stands under its own id.
abbrev pub IsFiled : Db → Type 0
IsFiled d = (j : String) (t : Task) → lookup j d.tasks ≡ some t → t.task_id ≡ j

abbrev pub Legal : String → Db → Db → Type 0
Legal j d e = IsFiled d → IsFiled e × Moves (lookup j d.tasks) (lookup j e.tasks)

pub Legal-preorder : (j : String) → Preorder (Legal j)
Legal-preorder j = record {
  same = λ d f. (f, Moves-refl (lookup j d.tasks));
  trans = λ d e g a b f. (
    (b (a f).0).0,
    Moves-trans (lookup j d.tasks) (lookup j e.tasks) (lookup j g.tasks) (a f).1 (b (a f).0).1,
  );
}
