-- ===== src/System/Refinement/Sweeping.antt =====
-- `sweep_due` of apps/auctions/scheduling.py and the two commands, as abstract steps: also when one
-- of the auctions raises an error.
use mbarara_auction.Prelude.{
  ℕ, ◌≡◌, refl, sym, subst, ◌∙◌, String, Bool, ◌&&◌, Option, List, [], ◌∷◌, leb, inl, inr,
  Bool-cases, arith,
}
use mbarara_auction.Models.{Db}
use mbarara_auction.Models.Auctions.{Auction, is_scheduled}
use mbarara_auction.Errors.{Error, is_validation_error}
use mbarara_auction.Exec.{Exec, Result, returned, raised, continue, final}
use mbarara_auction.Exec.Inversion.{roll_back-raised}
use mbarara_auction.Core.{Core, core}
use mbarara_auction.Auctions.Services.{transition, activate_if_due}
use mbarara_auction.Bidding.Close.{close_auction}
use mbarara_auction.Scheduling.Sweep.{
  counted, start_each, close_each, sweep_due, due_to_start, due_to_close, automated,
}
use mbarara_auction.System.Step.{Steps, append}
use mbarara_auction.System.Refinement.Moves.{activate_if_due-Steps}
use mbarara_auction.System.Refinement.Bids.{close_auction-Steps}

-- A raise of `activate_if_due` or of `close_auction` leaves the database as it was.
activate_if_due-raised :
    (k : ℕ) (a : Auction) (actor : Option ℕ) (db : Db) {e : Error} {db' : Db}
    → activate_if_due k a actor db ≡ raised e db'
    → db' ≡ db
unfolding activate_if_due transition
activate_if_due-raised k a actor db h =
    elim (Bool-cases (is_scheduled a.status && leb a.start_time db.clock)) [
      | inl due ↦ roll_back-raised db _ (rw due at h)
      | inr early ↦ absurd (returned_is_not_raised (rw early at h))
    ]
  where
    returned_is_not_raised :
        {A : Type 0} {a : A} {d d' : Db} {e : Error} → returned a d ≡ raised e d' → ⊥
    returned_is_not_raised h = cc

pub close_auction-raised :
    (k : ℕ) (actor : Option ℕ) (reason : String) (db : Db) {e : Error} {db' : Db}
    → close_auction k actor reason db ≡ raised e db'
    → db' ≡ db
unfolding close_auction
close_auction-raised k actor reason db h = roll_back-raised db _ h

final-counted :
    (A : Type 0) (is_caught : Error → Bool) (count : ℕ) (e : Error) (db : Db)
    → final (counted {A = A} is_caught count (raised e db)) ≡ db
final-counted A is_caught count e db = ground arith

-- A counted call takes steps if it takes them when it returns, and changes nothing when it raises.
counted-Steps :
    {A : Type 0} (is_caught : Error → Bool) (count : ℕ) (r : Result A) (db : Db)
    → ((a : A) (d : Db) → r ≡ returned a d → Steps (core db) (core d))
    → ((e : Error) (d : Db) → r ≡ raised e d → d ≡ db)
    → Steps (core db) (core (final (counted is_caught count r)))
counted-Steps {A = A} is_caught count (returned a d) db returns raises = returns a d refl
counted-Steps {A = A} is_caught count (raised e d) db returns raises =
    subst (λ (x : Db). Steps (core db) (core x))
      (sym (final-counted A is_caught count e d ∙ raises e d refl)) Steps.here

pub continue-Steps :
    {A B : Type 0} (f : A → Exec B) (r : Result A) (c : Core)
    → Steps c (core (final r))
    → ((a : A) (d : Db) → Steps (core d) (core (final (f a d))))
    → Steps c (core (final (continue f r)))
continue-Steps f (returned a d) c s go = append s (go a d)
continue-Steps f (raised e d) c s go = s

pub start_each-Steps :
    (is_caught : Error → Bool) (actor : Option ℕ) (due : List (ℕ × Auction)) (count : ℕ) (db : Db)
    → Steps (core db) (core (final (start_each is_caught actor due count db)))
unfolding start_each
start_each-Steps is_caught actor [] count db = Steps.here
start_each-Steps is_caught actor ((k, a) ∷ due) count db =
    continue-Steps _ (counted is_caught count (activate_if_due k a actor db)) (core db)
      (counted-Steps is_caught count _ db (λ x d. activate_if_due-Steps k a actor db)
        (λ e d. activate_if_due-raised k a actor db))
      (λ n d. start_each-Steps is_caught actor due n d)

pub close_each-Steps :
    (is_caught : Error → Bool) (actor : Option ℕ) (reason : String) (due : List (ℕ × Auction))
    (count : ℕ) (db : Db)
    → Steps (core db) (core (final (close_each is_caught actor reason due count db)))
unfolding close_each
close_each-Steps is_caught actor reason [] count db = Steps.here
close_each-Steps is_caught actor reason ((k, a) ∷ due) count db =
    continue-Steps _ (counted is_caught count (close_auction k actor reason db)) (core db)
      (counted-Steps is_caught count _ db (λ x d. close_auction-Steps k actor reason db)
        (λ e d. close_auction-raised k actor reason db))
      (λ n d. close_each-Steps is_caught actor reason due n d)

-- Whether sweep_due returns or raises, what it leaves in the tables that the services decide by
-- comes about by a sequence of abstract steps.
pub sweep_due-Steps :
    (actor : Option ℕ) (db : Db) → Steps (core db) (core (final (sweep_due actor db)))
unfolding sweep_due
sweep_due-Steps actor db =
    continue-Steps _ (start_each is_validation_error actor (due_to_start db) 0 db) (core db)
      (start_each-Steps _ actor _ 0 db)
      (λ n d.
        continue-Steps _ (close_each _ actor automated (due_to_close d) 0 d) (core d)
          (close_each-Steps _ actor automated _ 0 d) (λ m d. Steps.here))
