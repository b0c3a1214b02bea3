-- ===== src/Admin/People.antt =====
-- apps/accounts/admin.py: how the bulk actions on profiles end.
use mbarara_auction.Prelude.{◌≡◌}
use mbarara_auction.Models.{Db}
use mbarara_auction.Exec.{Exec, returned}
use mbarara_auction.Core.{core}
use mbarara_auction.System.Step.{Steps}

-- A call that returns, and what it did is a sequence of abstract steps.
abbrev pub Completes : {B : Type 0} → Exec B → Db → Type 0
Completes {B} m db =
    (b : B) × (after : Db) × (m db ≡ returned b after) × Steps (core db) (core after)
