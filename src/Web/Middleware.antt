-- ===== src/Web/Middleware.antt =====
-- apps/audit/middleware.py: the user of the request that a thread is serving.
use mbarara_auction.Prelude.{Option, none, some, List, [], ◌∷◌}
use mbarara_auction.Models.{Db}
use mbarara_auction.Exec.{Exec, Result, final}
use mbarara_auction.Accounts.Permissions.{RequestUser}
use mbarara_auction.Web.Replies.{Reply}

-- `_local.user`; none stands for None, and for a thread that has served nothing yet
abbrev pub Local : Type 0
Local = Option RequestUser

-- `get_current_user`
abbrev pub get_current_user : Local → Local
get_current_user local = local

-- A view with the middlewares inside this one: it may ask for the current user.
abbrev View : Type 0
View = Local → Exec Reply

-- `AuditContextMiddleware.__call__`: the result of the view, returned or raised, and the thread's
-- user afterwards
unfoldable pub call_middleware : View → RequestUser → Local → Db → Result Reply × Local
call_middleware view user local db = (view (get_current_user (some user)) db, none)

-- A thread serves one request after another.
unfoldable pub serve : List (View × RequestUser) → Local → Db → List (Result Reply)
serve [] local db = []
serve ((view, user) ∷ requests) local db =
    let (result, after) = call_middleware view user local db in
    result ∷ serve requests after (final result)
