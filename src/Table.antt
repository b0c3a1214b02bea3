-- ===== src/Table.antt =====
-- A database table: rows under their primary keys, newest first, and the key of the next row.
pub mod Keys
pub mod References
use mbarara_auction.Prelude.{
  ℕ, ◌+◌, ◌≡◌, refl, Bool, Option, none, some, List, [], ◌∷◌, arith, ◌==◌, if◌then◌else◌, select,
}
use mathlib.Core.Option

pub record Table (A : Type 0) : Type 0 where
  pub rows : List (ℕ × A)
  pub next : ℕ

module _ {A : Type 0} where
  abbrev pub find : ℕ → List (ℕ × A) → Option A
  find k [] = none
  find k ((j, a) ∷ rows) = if j == k then some a else find k rows

  abbrev pub change : ℕ → (A → A) → List (ℕ × A) → List (ℕ × A)
  change k f [] = []
  change k f ((j, a) ∷ rows) = (j, if j == k then f a else a) ∷ change k f rows

  -- `objects.get(pk=k)`; `none` is `DoesNotExist`
  unfoldable pub get : ℕ → Table A → Option A
  get k t = find k t.rows

  -- `UPDATE … WHERE pk = k`, what `save(update_fields=…)` sends
  unfoldable pub modify : ℕ → (A → A) → Table A → Table A
  modify k f t = record t { rows = change k f t.rows }

  -- `objects.create(…)`
  unfoldable pub create : A → Table A → Table A
  create a t = record { rows = (t.next, a) ∷ t.rows; next = t.next + 1 }

  -- `objects.filter(…)`
  unfoldable pub filter : (A → Bool) → Table A → List (ℕ × A)
  filter p t = select (λ r. p r.1) t.rows

  find-change :
      (k j : ℕ) (f : A → A) (rows : List (ℕ × A))
      → find j (change k f rows) ≡ (if k == j then Option.map f (find j rows) else find j rows)
  unfolding Option.map
  find-change k j f [] = ground arith
  find-change k j f (r ∷ rows) = ground (arith, find-change k j f rows)

  -- UPDATE changes the row under its key, if there is one, and no other.
  pub get-modify :
      (k j : ℕ) (f : A → A) (t : Table A)
      → get j (modify k f t) ≡ (if k == j then Option.map f (get j t) else get j t)
  unfolding get modify
  get-modify k j f t = find-change k j f t.rows

  pub get-create :
      (a : A) (j : ℕ) (t : Table A) → get j (create a t) ≡ (if t.next == j then some a else get j t)
  unfolding get create
  get-create a j t = refl
