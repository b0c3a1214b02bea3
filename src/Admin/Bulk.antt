-- ===== src/Admin/Bulk.antt =====
-- apps/bidding/admin.py, apps/payments/admin.py and apps/accounts/admin.py: the bulk actions as
-- abstract steps, also when one row raises an error and the rest is left.
use mbarara_auction.Prelude.{
  ℕ, ◌≡◌, refl, ap, String, Bool, true, false, Option, some, List, [], ◌∷◌, arith, ◌==◌,
  if◌then◌else◌, is_empty, select, inl, inr, Bool-cases,
}
use mbarara_auction.Table.{Table, get, modify, get-modify}
use mbarara_auction.Models.{Db}
use mbarara_auction.Models.Bidding.{Bid, is_accepted}
use mbarara_auction.Models.Payments.{Payment, is_pending}
use mbarara_auction.Errors.{Error}
use mbarara_auction.Exec.{Exec, returned, raised, final, Result-cases}
use mbarara_auction.Exec.Inversion.{roll_back-raised}
use mbarara_auction.Core.{Core, core}
use mbarara_auction.Bidding.Invalidate.{invalidate_bid}
use mbarara_auction.Bidding.Sync.{invalidate_bid-Invalidated}
use mbarara_auction.Payments.{as_paid, mark_paid}
use mbarara_auction.Payments.Outcome.{Settled, mark_paid-Settled}
use mbarara_auction.System.Step.{Steps, append}
use mbarara_auction.System.Refinement.Bids.{invalidate_bid-Steps}
use mbarara_auction.System.Refinement.Aftermath.{mark_paid-Steps}
use mbarara_auction.Admin.{
  for_each, admin_invalidate, admin_mark_paid, invalidate_reason, paid_notes,
}

-- The rows are what the table holds under their keys, and the keys differ.
abbrev other_keys : {A : Type 0} → ℕ → List (ℕ × A) → Bool
other_keys k [] = true
other_keys k ((j, a) ∷ rows) = if k == j then false else other_keys k rows

abbrev pub AllFresh : {A : Type 0} → List (ℕ × A) → Table A → Type 0
AllFresh [] t = Unit {0}
AllFresh ((k, a) ∷ rows) t = (get k t ≡ some a) × (other_keys k rows ≡ true) × AllFresh rows t

module _ {A : Type 0} where
  other_keys-select :
      (p : ℕ × A → Bool) (k : ℕ) (rows : List (ℕ × A))
      → other_keys k rows ≡ true
      → other_keys k (select p rows) ≡ true
  other_keys-select p k [] h = refl
  other_keys-select p k ((j, a) ∷ rows) h = ground (arith, other_keys-select p k rows)

  AllFresh-select :
      (p : ℕ × A → Bool) (rows : List (ℕ × A)) (t : Table A)
      → AllFresh rows t
      → AllFresh (select p rows) t
  AllFresh-select p [] t h = tt
  AllFresh-select p ((k, a) ∷ rows) t h = elim (Bool-cases (p (k, a))) [
    | inl chosen ↦ rw chosen (h.0, other_keys-select p k rows h.1, AllFresh-select p rows t h.2)
    | inr left ↦ rw left (AllFresh-select p rows t h.2)
  ]

  -- A write under one key leaves the copies of the rows under other keys as they are.
  AllFresh-modify :
      (k : ℕ) (f : A → A) (rows : List (ℕ × A)) (t : Table A)
      → other_keys k rows ≡ true
      → AllFresh rows t
      → AllFresh rows (modify k f t)
  AllFresh-modify k f [] t other h = tt
  AllFresh-modify k f ((j, a) ∷ rows) t other h =
      (ground (arith, get-modify k j f t, h.0), h.1, AllFresh-modify k f rows t (ground arith) h.2)

-- A loop takes steps if each round does, whether it returns or raises, and if a round that returns
-- leaves what the next one needs.
pub for_each-Steps :
    {A B : Type 0} (f : A → Exec B) (Ready : List A → Db → Type 0)
    → ((row : A) (rows : List A) (db : Db)
        → Ready (row ∷ rows) db
        → Steps (core db) (core (final (f row db)))
          × ((b : B) (d : Db) → f row db ≡ returned b d → Ready rows d))
    → (rows : List A) (db : Db) → Ready rows db
    → Steps (core db) (core (final (for_each f rows db)))
unfolding for_each
for_each-Steps f Ready round [] db ready = Steps.here
for_each-Steps f Ready round (row ∷ rows) db ready =
    let (steps, next) = round row rows db ready in
    elim (Result-cases (f row db)) [
      | inl (e, d, h) ↦ rw h (rw h at steps)
      | inr (b, d, h) ↦
          rw h (append (rw h at steps) (for_each-Steps f Ready round rows d (next b d h)))
    ]

-- An invalidation that raises has changed nothing.
invalidate_bid-raised :
    (key : ℕ) (b : Bid) (actor : Option ℕ) (reason : String) (db : Db) {e : Error} {d : Db}
    → invalidate_bid key b actor reason db ≡ raised e d
    → d ≡ db
unfolding invalidate_bid
invalidate_bid-raised key b actor reason db {d = d} h = elim (Bool-cases (is_empty reason)) [
  | inl blank ↦ let unchanged : raised _ db ≡ raised _ d = rw blank at h in cc
  | inr reasoned ↦ roll_back-raised db _ (rw reasoned at h)
]

-- The admin's bulk invalidation of bids, where the selected rows are what the table holds under
-- different keys, is a sequence of abstract steps, whether it returns or raises.
pub admin_invalidate-Steps :
    (staff : ℕ) (rows : List (ℕ × Bid)) (db : Db)
    → AllFresh rows db.bids
    → Steps (core db) (core (final (admin_invalidate staff rows db)))
unfolding admin_invalidate
admin_invalidate-Steps staff rows db fresh =
    for_each-Steps _ (λ rows db. AllFresh rows db.bids)
      (λ row rows db ready. (
        elim (Result-cases (invalidate_bid row.0 row.1 (some staff) invalidate_reason db)) [
          | inl (e, d, h) ↦
              rw (h, invalidate_bid-raised row.0 row.1 (some staff) invalidate_reason db h)
                Steps.here
          | inr (b, d, h) ↦
              rw h (invalidate_bid-Steps row.0 row.1 (some staff) invalidate_reason db ready.0 h)
        ],
        λ b d h.
            rw (invalidate_bid-Invalidated row.0 row.1 (some staff) invalidate_reason db h).bids
              (AllFresh-modify row.0 _ rows db.bids ready.1 ready.2),
      ))
      (select (λ r. is_accepted r.1.status) rows) db (AllFresh-select _ rows db.bids fresh)

mark_paid-payments :
    (key : ℕ) (p : Payment) (actor : Option ℕ) (method reference notes : String) (db : Db)
    {p' : Payment} {d : Db}
    → mark_paid key p actor method reference notes db ≡ returned p' d
    → d.payments ≡ modify key (as_paid actor method reference notes db.clock) db.payments
mark_paid-payments key p actor method reference notes db h =
    elim (mark_paid-Settled key p actor method reference notes db h).1 [
      | Settled.settled a found closed after ↦ ap (λ (c : Core). c.payments) after
      | Settled.left_alone a found other after ↦ ap (λ (c : Core). c.payments) after
    ]

mark_paid-raised :
    (key : ℕ) (p : Payment) (actor : Option ℕ) (method reference notes : String) (db : Db)
    {e : Error} {d : Db}
    → mark_paid key p actor method reference notes db ≡ raised e d
    → d ≡ db
unfolding mark_paid
mark_paid-raised key p actor method reference notes db h = roll_back-raised db _ h

-- The admin's bulk marking of payments as paid, where the selected rows are what the table holds
-- under different keys, is a sequence of abstract steps, whether it returns or raises.
pub admin_mark_paid-Steps :
    (staff : ℕ) (rows : List (ℕ × Payment)) (db : Db)
    → AllFresh rows db.payments
    → Steps (core db) (core (final (admin_mark_paid staff rows db)))
unfolding admin_mark_paid
admin_mark_paid-Steps staff rows db fresh =
    for_each-Steps _ (λ rows db. AllFresh rows db.payments)
      (λ row rows db ready. (
        elim (Result-cases (mark_paid row.0 row.1 (some staff) "" "" paid_notes db)) [
          | inl (e, d, h) ↦
              rw (h, mark_paid-raised row.0 row.1 (some staff) "" "" paid_notes db h) Steps.here
          | inr (b, d, h) ↦
              rw h (mark_paid-Steps row.0 row.1 (some staff) "" "" paid_notes db ready.0 h)
        ],
        λ b d h.
            rw (mark_paid-payments row.0 row.1 (some staff) "" "" paid_notes db h)
              (AllFresh-modify row.0 _ rows db.payments ready.1 ready.2),
      ))
      (select (λ r. is_pending r.1.status) rows) db (AllFresh-select _ rows db.payments fresh)
