-- ===== src/Lib.antt =====
-- Mbarara auction platform: a model of its services over an explicit database, with the theorems that
-- make them correct.
--
-- The program is a Django site. Each app keeps its state in tables (apps/<app>/models.py) and changes
-- them in service functions (apps/<app>/services.py). A listing goes from DRAFT by review to
-- SCHEDULED and LIVE, takes bids, and is closed; a sale makes a payment due; a dispute may be raised
-- about a finished auction; every change writes to the audit trail and notifies people.
--
-- How the model stands to the code:
--   * Models (Accounts, Auctions, Bidding, Payments, Disputes, Records): the rows of the tables as
--     records, the choices of a field as data types. `Db` has one `Table` for each model, the queue of
--     deliveries, and the clock.
--   * Table: rows under their primary keys, newest first; get, modify, create and filter are what the
--     services ask of the database. Table/Keys and Table/References: fresh keys and foreign keys.
--   * Exec: a service reads and writes a `Db`, and returns or raises; `atomic` is
--     transaction.atomic. Errors: the exceptions. Exec/Inversion: what a call that returned has done.
--   * Auctions (apps/auctions/services.py): Lifecycle is ALLOWED_TRANSITIONS, Services `transition`,
--     submit_for_review, approve, reject, cancel and activate_if_due.
--   * Bidding (apps/bidding/services.py): Amount is _validate_amount; Place, Invalidate, Close and
--     History are place_bid, invalidate_bid, close_auction and get_bid_history; Queries what they look
--     up. Highest and Sync are about Auction.current_highest_bid.
--   * Scheduling (apps/auctions/scheduling.py): Controls is start_now, reschedule, pause, resume,
--     cancel_auction and end_now; Sweep is sweep_due and the two management commands.
--   * Payments (apps/payments/services.py), Disputes (apps/disputes/services.py), Notifications
--     (apps/notifications/services.py), Accounts (apps/accounts: services, signals, permissions),
--     Audit (apps/audit/models.py: AuditLog.record): a definition for each function.
--   * Core: the tables that the services decide by, without the audit trail, the notifications and
--     their queue, which are only written.
--   * System: Step is what one service may do to these tables, Refinement is about the services as
--     sequences of steps, Invariants and Reachable about the states that steps lead to.
--   * Web (apps/*/views.py, apps/listings): what a POST does, for whom, and which errors become
--     messages (Bids, Control, Disputes, Listings, Staff); Pages and ControlPages are the pages that
--     list rows and offer buttons (apps/auctions/control.py), Middleware is apps/audit/middleware.py.
--     Web/Guards, Web/Offers, Pages/Seen and ControlPages/Buttons are about what they let through.
--   * Accounts/Registration (apps/accounts/views.py, forms.py): a new account and its profile;
--     Registration/Superuser is apps/core/management/commands/create_superuser_env.py.
--   * Admin (apps/*/admin.py): the bulk actions; Admin/Bulk and Admin/People are about them.
--   * Notifications/Delivery (apps/notifications/tasks.py): what is done with a queued delivery.
--   * Reports (apps/reports): Dates is parse_date with the calendar, Ranges the bounds of a report and
--     its page, Reports the summary's counts and sums and csv_safe, Csv the cells of the files,
--     Categories the summary's rows by category.
--   * Demo (apps/core/management/commands/seed_demo.py): Catalogue has the data, People the accounts,
--     Seed the command, Clear the deletion; Demo/Built is about the auctions as steps of the platform.
--   * Config (config/settings): the hosts and trusted origins of each environment. Web/Images
--     (apps/listings/forms.py): the rule for an uploaded image.
--   * Setup (start.py): the script that sets up a developer's machine, as a state of files and of the
--     commands run; Setup/Progress says how far it has come, Setup/Order what comes before what.
--   * Tests: a small database, runs of the services on it, and theorems at concrete inputs.
--
-- Choices. Money is a number of cents; an incoming amount has a sign, a coefficient and an exponent,
-- as a Python Decimal has. A time is a number of microseconds, and the clock stands still within one
-- operation. A foreign key that finds no row gives no recipient. A row that a caller passes is its
-- own copy, beside the key under which the service reads the row again. The text of a message is a
-- constructor with the values that the text shows. Services run one at a time: most
-- lock the row that they decide by, and then an interleaving is a sequence of calls; what is read
-- before the lock, or without one, is the caller's copy. All loops are structural, over lists of rows,
-- so there is no fuel.
--
-- A time counts the microseconds from the start of day 0 in UTC, and a time zone is a fixed number of
-- hours or minutes ahead of it, as Africa/Kampala is.
--
-- Not modelled: the form set of a listing's images, of which whether it is valid is an argument; the
-- quotients of the summary, which are left as their two parts; the quoting of the csv module; the
-- admin's declarations, URLs, most settings, templates and migrations, which only declare; sessions,
-- passwords and sign-in, which are the framework's; retries by Celery; an interrupt from the
-- keyboard; the texts of error messages.
pub mod Accounts
pub mod Admin
pub mod Auctions
pub mod Audit
pub mod Bidding
pub mod Config
pub mod Core
pub mod Demo
pub mod Disputes
pub mod Errors
pub mod Exec
pub mod Models
pub mod Notifications
pub mod Payments
pub mod Prelude
pub mod Reports
pub mod Scheduling
pub mod Setup
pub mod System
pub mod Table
pub mod Tests
pub mod Web
