-- ===== src/Setup/Progress.antt =====
-- start.py: how far the setup of a machine has come, and what a step of it leaves.
use mbarara_auction.Prelude.{
  ◌≡◌, refl, Bool, true, false, not, ◌&&◌, ◌||◌, List, [], ◌∷◌, arith, if◌then◌else◌,
}
use mbarara_auction.Setup.{
  Command, RunStatus, Files, Machine, Ended, Script, after, judge, judge_server, record_run, pure,
  exit_if, ◌>>=◌,
}

-- commands that work on the database of a site that is set up
abbrev pub needs_database : Command → Bool
needs_database (Command.has_superuser python) = true
needs_database (Command.add_superuser python username email password) = true
needs_database (Command.seed python) = true
needs_database (Command.runserver python) = true
needs_database _ = false

abbrev pub installs : Command × RunStatus → Bool
installs (Command.install python file, RunStatus.zero_status) = true
installs _ = false

abbrev pub migrates : Command × RunStatus → Bool
migrates (Command.migrate python, RunStatus.zero_status) = true
migrates _ = false

abbrev pub happened : (Command × RunStatus → Bool) → List (Command × RunStatus) → Bool
happened p [] = false
happened p (entry ∷ log) = p entry || happened p log

-- Every command that needs the database comes after an installation and after migrations that ended
-- with status 0.
abbrev pub is_ordered : List (Command × RunStatus) → Bool
is_ordered [] = true
is_ordered ((c, outcome) ∷ log) =
    (not (needs_database c) || (happened installs log && happened migrates log)) && is_ordered log

abbrev pub log_of : {A : Type 0} → Ended A → List (Command × RunStatus)
log_of (Ended.done a s) = s.log
log_of (Ended.exited s) = s.log

-- How far the setup has come.
pub record Begun (s : Machine) : Type 0 where
  pub ordered : is_ordered s.log ≡ true

pub record Installed (s : Machine) : Type 0 where
  pub ordered : is_ordered s.log ≡ true
  pub installed : happened installs s.log ≡ true

pub record Ready (s : Machine) : Type 0 where
  pub ordered : is_ordered s.log ≡ true
  pub installed : happened installs s.log ≡ true
  pub migrated : happened migrates s.log ≡ true

-- A script that goes on leaves `P`, and one that exits an ordered log.
abbrev pub Left : {A : Type 0} → (A → Machine → Type 0) → Ended A → Type 0
Left P (Ended.done a s) = P a s
Left P (Ended.exited s) = Begun s

pub record Leaves {A : Type 0} (P : A → Machine → Type 0) (m : Script A) (s : Machine)
    : Type 0 where
  pub left : Left P (m s)

pub Left-after :
    {A B : Type 0} (P : A → Machine → Type 0) (Q : B → Machine → Type 0) (f : A → Script B)
    (r : Ended A)
    → Left P r
    → ((a : A) (s : Machine) → P a s → Leaves Q (f a) s)
    → Left Q (after f r)
Left-after P Q f (Ended.done a s) h go = (go a s h).left
Left-after P Q f (Ended.exited s) h go = h

pub bind-Leaves :
    {A B : Type 0} {P : A → Machine → Type 0} {Q : B → Machine → Type 0} (m : Script A)
    (f : A → Script B) (s : Machine)
    → Leaves P m s
    → ((a : A) (t : Machine) → P a t → Leaves Q (f a) t)
    → Leaves Q (m >>= f) s
bind-Leaves m f s h go = record { left = Left-after _ _ f (m s) h.left go }

pub pure-Leaves :
    {A : Type 0} {P : A → Machine → Type 0} (a : A) (s : Machine) → P a s → Leaves P (pure a) s
pure-Leaves a s h = record { left = h }

-- What a recorded command leaves of what was so before it.
module _ (c : Command) (result : RunStatus × Files) (s : Machine) where
  pub Begun-early : needs_database c ≡ false → Begun s → Begun (record_run c result s)
  Begun-early early b = record { ordered = ground arith }

  pub Installed-early : needs_database c ≡ false → Installed s → Installed (record_run c result s)
  Installed-early early b = record { ordered = ground arith; installed = ground arith }

  pub Ready-run : Ready s → Ready (record_run c result s)
  Ready-run r = record { ordered = ground arith; installed = ground arith; migrated = ground arith }

pub Begun-Installed : (s : Machine) → Installed s → Begun s
Begun-Installed s i = record { ordered = i.ordered }

pub Begun-Ready : (s : Machine) → Ready s → Begun s
Begun-Ready s r = record { ordered = r.ordered }

pub judge-Left :
    (P : Bool → Machine → Type 0) (check : Bool) (status : RunStatus) (s : Machine)
    → (status ≡ RunStatus.zero_status → P true s)
    → P false s
    → Begun s
    → Left P (judge check status s)
judge-Left P check RunStatus.zero_status s yes_it no_it b = yes_it refl
judge-Left P true RunStatus.other_status s yes_it no_it b = b
judge-Left P false RunStatus.other_status s yes_it no_it b = no_it
judge-Left P check RunStatus.not_found s yes_it no_it b = no_it

pub judge_server-Left :
    (status : RunStatus) (s : Machine) → Ready s → Left (λ u t. Ready t) (judge_server status s)
judge_server-Left RunStatus.zero_status s r = r
judge_server-Left RunStatus.other_status s r = r
judge_server-Left RunStatus.not_found s r = Begun-Ready s r

pub Left-Begun : {A : Type 0} (r : Ended A) → Left (λ a t. Ready t) r → Left (λ a t. Begun t) r
Left-Begun (Ended.done a s) h = Begun-Ready s h
Left-Begun (Ended.exited s) h = h

pub Begun-is_ordered :
    {A : Type 0} (r : Ended A) → Left (λ a t. Begun t) r → is_ordered (log_of r) ≡ true
Begun-is_ordered (Ended.done a s) h = h.ordered
Begun-is_ordered (Ended.exited s) h = h.ordered

-- A step that needs a success: the script exits without one.
abbrev pub IfTrue : (Machine → Type 0) → Bool → Machine → Type 0
IfTrue P true s = P s
IfTrue P false s = Begun s

pub IfTrue-Begun : (ok : Bool) (s : Machine) → Begun s → IfTrue Begun ok s
IfTrue-Begun true s b = b
IfTrue-Begun false s b = b

pub exit_unless-Leaves :
    (P : Machine → Type 0) (ok : Bool) (s : Machine)
    → IfTrue P ok s
    → Leaves (λ (b : Bool) t. P t) (exit_if (not ok) >>= λ u. pure true) s
exit_unless-Leaves P true s h = record { left = h }
exit_unless-Leaves P false s h = record { left = h }

pub if-Leaves :
    {A : Type 0} {P : A → Machine → Type 0} (b : Bool) (m n : Script A) (s : Machine)
    → Leaves P m s
    → Leaves P n s
    → Leaves P (if b then m else n) s
if-Leaves true m n s h k = h
if-Leaves false m n s h k = k

pub exit_if-Ready : (b : Bool) (s : Machine) → Ready s → Leaves (λ u t. Ready t) (exit_if b) s
exit_if-Ready true s r = record { left = Begun-Ready s r }
exit_if-Ready false s r = record { left = r }
