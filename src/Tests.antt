-- ===== src/Tests.antt =====
-- Runs of the model on a small database, and each theorem at an input that meets its hypotheses.
mod Data
mod Bidding
mod Services
mod Rules
mod System
mod Site
mod Platform
mod Setup
mod Reports
mod Demo
