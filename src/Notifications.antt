-- ===== src/Notifications.antt =====
-- apps/notifications/services.py: the one function that creates notifications, the wrappers for
-- each event, and the inbox. A foreign key such as `auction.seller` always names a row in the
-- database; where the model looks a row up and finds none, no one is told.
pub mod Notify
pub mod Events
pub mod Accounts
pub mod Recipients
pub mod Inbox
pub mod Delivery
