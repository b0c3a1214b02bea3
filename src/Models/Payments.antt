-- ===== src/Models/Payments.antt =====
-- apps/payments/models.py
use mbarara_auction.Prelude.{ℕ, String, Bool, true, false, Option}

pub data PaymentStatus : Type 0 where
  pending paid failed refunded : PaymentStatus

abbrev pub is_pending : PaymentStatus → Bool
is_pending PaymentStatus.pending = true
is_pending _ = false

abbrev pub is_paid : PaymentStatus → Bool
is_paid PaymentStatus.paid = true
is_paid _ = false

pub record Payment : Type 0 where
  pub auction : ℕ
  pub amount : ℕ
  pub status : PaymentStatus
  pub method : String
  pub reference : String
  pub notes : String
  pub recorded_by : Option ℕ
  pub paid_at : Option ℕ
  pub created_at : ℕ
  pub updated_at : ℕ
