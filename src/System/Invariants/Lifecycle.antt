-- ===== src/System/Invariants/Lifecycle.antt =====
-- The life of an auction over any sequence of steps.
use mbarara_auction.Prelude.{ℕ, ◌≡◌, refl, subst, Bool, true, false, some, arith}
use mbarara_auction.Table.{get}
use mbarara_auction.Models.Auctions.{AuctionStatus, Auction}
use mbarara_auction.Core.{Core}
use mbarara_auction.Auctions.Lifecycle.{is_allowed}
use mbarara_auction.System.Step.{Steps}
use mbarara_auction.System.Invariants.Keys.{Steps-IsSound}
use mbarara_auction.System.Invariants.Sound.{IsSound}
use mbarara_auction.System.Invariants.Statuses.{Follows, trans, Step-Kept}

-- From tables whose keys are sound, after any sequence of steps every auction that was there is
-- still there, and its new status is reached from the old one by moves of ALLOWED_TRANSITIONS.
pub Steps-Follows :
    {c d : Core} (k : ℕ) (a : Auction)
    → Steps c d
    → IsSound c
    → get k c.auctions ≡ some a
    → (a' : Auction) × (get k d.auctions ≡ some a') × Follows a.status a'.status
Steps-Follows k a Steps.here sound found = (a, found, Follows.stay)
Steps-Follows k a (Steps.then t u) sound found =
    let (b, at_b, p) = Steps-Follows k a t sound found in
    let (a', at_k, q) = (Step-Kept u (Steps-IsSound t sound).auctions_keyed).later k b at_b in
    (a', at_k, trans p q)

-- REJECTED, CANCELLED and COMPLETED
abbrev pub is_final : AuctionStatus → Bool
is_final AuctionStatus.rejected = true
is_final AuctionStatus.cancelled = true
is_final AuctionStatus.completed = true
is_final _ = false

no_exit : (s t : AuctionStatus) → is_final s ≡ true → is_allowed s t ≡ true → ⊥
unfolding is_allowed
no_exit s t final allowed = ground arith

Follows-is_final : {s t : AuctionStatus} → Follows s t → is_final s ≡ true → t ≡ s
Follows-is_final Follows.stay final = refl
Follows-is_final {s} (Follows.go {t} {u} f allowed) final =
    absurd
      (no_exit s u final (subst (λ x. is_allowed x u ≡ true) (Follows-is_final f final) allowed))

-- From tables whose keys are sound, an auction that is REJECTED, CANCELLED or COMPLETED has the
-- same status after any sequence of steps.
pub Steps-is_final :
    {c d : Core} (k : ℕ) (a : Auction)
    → Steps c d
    → IsSound c
    → get k c.auctions ≡ some a
    → is_final a.status ≡ true
    → (a' : Auction) × (get k d.auctions ≡ some a') × (a'.status ≡ a.status)
Steps-is_final k a steps sound found final =
    let (a', at_k, path) = Steps-Follows k a steps sound found in
    (a', at_k, Follows-is_final path final)
