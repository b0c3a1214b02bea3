-- ===== src/System/Refinement/People.antt =====
-- apps/accounts/services.py and signals.py: their operations as abstract steps.
use mbarara_auction.Prelude.{ℕ, ◌≡◌, sym, ap, subst, String, Bool, Option, arith, is_empty}
use mbarara_auction.Models.{Db}
use mbarara_auction.Models.Accounts.{User, VerificationStatus}
use mbarara_auction.Exec.{returned}
use mbarara_auction.Exec.Inversion.{raise_if-returned, returned-injective}
use mbarara_auction.Core.{core}
use mbarara_auction.Accounts.Verification.{
  Profile, apply_verification, verify_profile, reject_profile, suspend_bidder, reactivate_bidder,
  create_role_profile,
}
use mbarara_auction.System.Step.{Step, Steps, one}

-- Only users and profiles have changed.
record OnlyPeople (db db' : Db) : Type 0 where
  pub same :
      core db'
      ≡ record (core db) { users = db'.users; sellers = db'.sellers; bidders = db'.bidders }

OnlyPeople-Steps : {db db' : Db} → OnlyPeople db db' → Steps (core db) (core db')
OnlyPeople-Steps {db} {db'} p =
    subst (Steps (core db)) (sym p.same) (one (Step.people db'.users db'.sellers db'.bidders))

apply_verification-OnlyPeople :
    (p : Profile) (status : VerificationStatus) (actor : Option ℕ) (reason : String) (db : Db)
    → OnlyPeople db (apply_verification p status actor reason db)
unfolding apply_verification
apply_verification-OnlyPeople p status actor reason db = record { same = ground arith }

pub verify_profile-Steps :
    (p : Profile) (actor : Option ℕ) (reason : String) (db : Db) {u : Unit {0}} {db' : Db}
    → verify_profile p actor reason db ≡ returned u db'
    → Steps (core db) (core db')
unfolding verify_profile
verify_profile-Steps p actor reason db h =
    subst (λ (d : Db). Steps (core db) (core d)) (sym (returned-injective h).1)
      (OnlyPeople-Steps
        (apply_verification-OnlyPeople p VerificationStatus.verified actor reason db))

pub reject_profile-Steps :
    (p : Profile) (actor : Option ℕ) (reason : String) (db : Db) {u : Unit {0}} {db' : Db}
    → reject_profile p actor reason db ≡ returned u db'
    → Steps (core db) (core db')
unfolding reject_profile
reject_profile-Steps p actor reason db h = raise_if-returned _ _ (is_empty reason) h λ reasoned h.
    subst (λ (d : Db). Steps (core db) (core d)) (sym (returned-injective h).1)
      (OnlyPeople-Steps
        (apply_verification-OnlyPeople p VerificationStatus.rejected actor reason db))

pub suspend_bidder-Steps :
    (key user : ℕ) (actor : Option ℕ) (reason : String) (db : Db) {u : Unit {0}} {db' : Db}
    → suspend_bidder key user actor reason db ≡ returned u db'
    → Steps (core db) (core db')
unfolding suspend_bidder
suspend_bidder-Steps key user actor reason db h =
    raise_if-returned _ _ (is_empty reason) h λ reasoned h.
      subst (Steps (core db)) (sym (ap core (returned-injective h).1))
        (one (Step.people db.users db.sellers _))

pub reactivate_bidder-Steps :
    (key user : ℕ) (actor : Option ℕ) (reason : String) (db : Db) {u : Unit {0}} {db' : Db}
    → reactivate_bidder key user actor reason db ≡ returned u db'
    → Steps (core db) (core db')
unfolding reactivate_bidder
reactivate_bidder-Steps key user actor reason db h =
    subst (Steps (core db)) (sym (ap core (returned-injective h).1))
      (one (Step.people db.users db.sellers _))

create_role_profile-OnlyPeople :
    (key : ℕ) (u : User) (created : Bool) (db : Db)
    → OnlyPeople db (create_role_profile key u created db)
unfolding create_role_profile
create_role_profile-OnlyPeople key u created db = record { same = ground arith }

pub create_role_profile-Steps :
    (key : ℕ) (u : User) (created : Bool) (db : Db)
    → Steps (core db) (core (create_role_profile key u created db))
create_role_profile-Steps key u created db =
    OnlyPeople-Steps (create_role_profile-OnlyPeople key u created db)
