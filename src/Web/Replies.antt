-- ===== src/Web/Replies.antt =====
-- What a view answers. A 403 or a 404, and every error that a view does not catch, is a raise.
use mbarara_auction.Prelude.{ℕ, Bool, if◌then◌else◌}
use mbarara_auction.Table.{Table, get}
use mbarara_auction.Models.{Db}
use mbarara_auction.Errors.{Error}
use mbarara_auction.Exec.{Result, Exec, gets, or_raise, ◌>>=◌}

-- A redirect with a message, without one, or to the login page; the page asked for, or the form's
-- page again.
pub data Reply : Type 0 where
  success : Reply
  warning : Reply
  refused : Error → Reply
  form_again : Reply
  shown : Reply
  redirected : Reply
  log_in : Reply

abbrev pub answer : {A : Type 0} → (Error → Bool) → Reply → Result A → Result Reply
answer is_caught reply (Result.returned _ db) = Result.returned reply db
answer is_caught reply (Result.raised e db) =
    if is_caught e then Result.returned (Reply.refused e) db else Result.raised e db

-- `try: …; messages.success(…)` with `except … as exc: messages.error(request, str(exc))`
abbrev pub catching : {A : Type 0} → (Error → Bool) → Reply → Exec A → Exec Reply
catching is_caught reply m db = answer is_caught reply (m db)

-- `get_object_or_404`
abbrev pub get_or_404 : {A : Type 0} → (Db → Table A) → ℕ → Exec A
get_or_404 table k = do row ← gets (λ db. get k (table db)); or_raise row Error.not_found
