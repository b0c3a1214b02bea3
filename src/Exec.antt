-- ===== src/Exec.antt =====
-- A service function: it reads and writes the database, and returns or raises. What was written
-- before a raise stays written, unless the function runs in `transaction.atomic`.
pub mod Inversion
use mbarara_auction.Prelude.{◌≡◌, refl, ◌⊎◌, inl, inr, Bool, true, false, Option, none, some}
use mbarara_auction.Models.{Db}
use mbarara_auction.Errors.{Error}

pub data Result {ℓ} (A : Type ℓ) : Type ℓ where
  returned : A → Db → Result A
  raised : Error → Db → Result A

abbrev pub Exec : Type 0 → Type 0
Exec A = Db → Result A

module _ {A : Type 0} where
  abbrev pub pure : A → Exec A
  pure a db = Result.returned a db

  abbrev pub raise : Error → Exec A
  raise e db = Result.raised e db

  -- a query
  abbrev pub gets : (Db → A) → Exec A
  gets f db = Result.returned (f db) db

  abbrev pub or_raise : Option A → Error → Exec A
  or_raise none e db = Result.raised e db
  or_raise (some a) e db = Result.returned a db

  abbrev pub roll_back : Db → Result A → Result A
  roll_back db (Result.returned a db') = Result.returned a db'
  roll_back db (Result.raised e _) = Result.raised e db

  -- `transaction.atomic`, as a decorator or a block
  abbrev pub atomic : Exec A → Exec A
  atomic m db = roll_back db (m db)

  -- the database that a call leaves
  abbrev pub final : Result A → Db
  final (Result.returned _ db) = db
  final (Result.raised _ db) = db

-- writes that cannot fail
abbrev pub effect : (Db → Db) → Exec (Unit {0})
effect f db = Result.returned tt (f db)

abbrev pub raise_if : Bool → Error → Exec (Unit {0})
raise_if true e db = Result.raised e db
raise_if false e db = Result.returned tt db

abbrev pub continue : {A B : Type 0} → (A → Exec B) → Result A → Result B
continue f (Result.returned a db) = f a db
continue f (Result.raised e db) = Result.raised e db

infixl 5 ◌>>=◌ ◌>>◌
abbrev pub ◌>>=◌ : {A B : Type 0} → Exec A → (A → Exec B) → Exec B
◌>>=◌ m f db = continue f (m db)

abbrev pub ◌>>◌ : {B : Type 0} → Exec (Unit {0}) → Exec B → Exec B
m >> k = m >>= λ _. k

pub Result-cases :
    {A : Type 0} (r : Result A)
    → ((e : Error) × (db : Db) × (r ≡ Result.raised e db))
      ⊎ ((a : A) × (db : Db) × (r ≡ Result.returned a db))
Result-cases (Result.returned a db) = inr (a, db, refl)
Result-cases (Result.raised e db) = inl (e, db, refl)
