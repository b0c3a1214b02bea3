-- ===== src/Exec/Inversion.antt =====
-- What a call that returned must have done, one rule for each way to begin a `do` block: each rule
-- hands the parts, as variables, to the rest of a proof.
use mbarara_auction.Prelude.{◌≡◌, refl, Bool, true, false, Option, none, some}
use mbarara_auction.Models.{Db}
use mbarara_auction.Errors.{Error}
use mbarara_auction.Exec.{Exec, Result, returned, raised, continue, roll_back, raise_if, or_raise}

pub roll_back-returned :
    {A : Type 0} (db : Db) (r : Result A) {a : A} {db' : Db}
    → roll_back db r ≡ returned a db'
    → r ≡ returned a db'
roll_back-returned db (returned a d) h = h
roll_back-returned db (raised e d) h = cc

-- a raise in `atomic` leaves the database as it was
pub roll_back-raised :
    {A : Type 0} (db : Db) (r : Result A) {e : Error} {db' : Db}
    → roll_back db r ≡ raised e db'
    → db' ≡ db
roll_back-raised db (returned a d) h = cc
roll_back-raised db (raised e d) h = cc

module _ {A B : Type 0} (f : A → Exec B) {b : B} {db' : Db} {C : Type 0} where
  pub continue-returned :
      (r : Result A)
      → continue f r ≡ returned b db'
      → ((a : A) (d : Db) → r ≡ returned a d → f a d ≡ returned b db' → C)
      → C
  continue-returned (returned a d) h go = go a d refl h
  continue-returned (raised e d) h go = cc

  -- a call that changes nothing when it returns
  pub continue-reads :
      {db : Db} (r : Result A)
      → ((a : A) (d : Db) → r ≡ returned a d → d ≡ db)
      → continue f r ≡ returned b db'
      → ((a : A) → r ≡ returned a db → f a db ≡ returned b db' → C)
      → C
  continue-reads (returned a d) same h go = go a (rw (same a d refl)) (rw (same a d refl) at h)
  continue-reads (raised e d) same h go = cc

  pub or_raise-returned :
      (e : Error) {db : Db} (o : Option A)
      → continue f (or_raise o e db) ≡ returned b db'
      → ((a : A) → o ≡ some a → f a db ≡ returned b db' → C)
      → C
  or_raise-returned e none h go = cc
  or_raise-returned e (some a) h go = go a refl h

module _ {B : Type 0} (f : Unit {0} → Exec B) {b : B} {db db' : Db} {C : Type 0} where
  pub raise_if-returned :
      (e : Error) (c : Bool)
      → continue f (raise_if c e db) ≡ returned b db'
      → (c ≡ false → f tt db ≡ returned b db' → C)
      → C
  raise_if-returned e true h go = cc
  raise_if-returned e false h go = go refl h

pub returned-injective :
    {A : Type 0} {a a' : A} {d d' : Db} → returned a d ≡ returned a' d' → (a' ≡ a) × (d' ≡ d)
returned-injective h = (cc, cc)
