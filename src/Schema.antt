-- ===== src/Schema.antt =====
-- The tables of backend/migrations/*.sql that the modelled statements read or write, one record for
-- a row and one list for a table. Rows stand in insertion order. Times are microseconds in
-- UTC, as DATETIME(6) keeps them, counted from a midnight before every time in use. A column is left out if no modelled statement reads it
-- (`created_at`, `updated_at`, descriptive columns).
use ticket_online.Common.{ℕ, Bool, Option, List, []}
use ticket_online.Common.Text.{Text}

pub data Publication : Type 0 where
  draft published archived : Publication

pub data Lifecycle : Type 0 where
  scheduled postponed rescheduled cancelled : Lifecycle

pub record Event : Type 0 where
  pub id : Text
  pub artist : Text
  pub publication : Publication
  pub lifecycle : Lifecycle
  pub change_version : ℕ
  pub sales_paused : Bool
  pub starts_at : Option ℕ

pub record EventChange : Type 0 where
  pub id : Text
  pub event_id : Text
  pub version : ℕ
  pub announcement : Text
  pub staff_id : Text
  pub reason : Text
  pub refund_deadline : Option ℕ

pub record ChangeOrder : Type 0 where
  pub order_id : Text
  pub stop_pending : Bool
  pub processed : Bool

pub record RefundRight : Type 0 where
  pub order_id : Text
  pub change_id : Text
  pub requested : Bool

pub record Tier : Type 0 where
  pub id : ℕ
  pub event_id : Text
  pub slug : Text
  pub name : Text
  pub price : ℕ
  pub capacity : ℕ
  pub available : ℕ
  pub max_per_order : ℕ
  pub gate : Text

pub data ReservationStatus : Type 0 where
  active expired cancelled converted : ReservationStatus

pub record ReservationRow : Type 0 where
  pub id : Text
  pub event_id : Text
  pub status : ReservationStatus
  pub idempotency_key : Text
  pub request_hash : Text
  pub expires_at : ℕ
  pub order_reference : Option Text

pub record ReservationItem : Type 0 where
  pub reservation_id : Text
  pub tier_id : ℕ
  pub quantity : ℕ
  pub unit_price : ℕ

pub data OrderStatus : Type 0 where
  pending paid cancelled expired refund_pending refunded : OrderStatus

pub record Order : Type 0 where
  pub id : Text
  pub reference : Text
  pub reservation_id : Text
  pub status : OrderStatus
  pub subtotal : ℕ
  pub admin_fee : ℕ
  pub discount : ℕ
  pub total : ℕ
  pub request_hash : Option Text
  pub expires_at : ℕ
  pub access_deadline : Option ℕ

pub record OrderItem : Type 0 where
  pub order_id : Text
  pub tier_id : ℕ
  pub tier_name : Text
  pub quantity : ℕ
  pub unit_price : ℕ

pub data Method : Type 0 where
  qris virtual_account gopay : Method

pub data PaymentStatus : Type 0 where
  pending failed succeeded : PaymentStatus

pub record Payment : Type 0 where
  pub id : Text
  pub order_id : Text
  pub method : Method
  pub amount : ℕ
  pub status : PaymentStatus
  pub started_at : Option ℕ
  pub paid_at : Option ℕ
  pub gateway_order_id : Option Text
  pub gateway_reference : Option Text
  pub redirect_url : Option Text

pub record Buyer : Type 0 where
  pub order_id : Text
  pub name : Text
  pub email : Text
  pub phone : Text
  pub identity : Text

pub record Attendee : Type 0 where
  pub order_id : Text
  pub tier_id : ℕ
  pub number : ℕ
  pub name : Text

pub record Eticket : Type 0 where
  pub id : Text
  pub order_id : Text
  pub tier_id : ℕ
  pub number : ℕ
  pub attendee_name : Text
  pub event_id : Text
  pub event_artist : Text
  pub gate : Text
  pub issued_at : ℕ

pub record PaymentCase : Type 0 where
  pub order_id : Text
  pub gateway_order_id : Text
  pub amount : ℕ
  pub provider_status : Text
  pub is_open : Bool

pub data VoucherKind : Type 0 where
  percent fixed : VoucherKind

pub record VoucherRow : Type 0 where
  pub code : Text
  pub kind : VoucherKind
  pub value : ℕ
  pub starts_at : ℕ
  pub ends_at : ℕ
  pub is_active : Bool
  pub event_id : Option Text
  pub minimum_subtotal : ℕ
  pub quota : ℕ
  pub revision : ℕ

pub record OrderVoucher : Type 0 where
  pub order_id : Text
  pub code : Text
  pub kind : VoucherKind
  pub value : ℕ
  pub consumed : Bool

pub record SettingsRow : Type 0 where
  pub admin_fee : ℕ
  pub revision : ℕ

pub data Role : Type 0 where
  staff admin : Role

pub record StaffUser : Type 0 where
  pub id : Text
  pub name : Text
  pub email : Text
  pub password_hash : Text
  pub role : Role
  pub is_active : Bool

pub record StaffSession : Type 0 where
  pub token_hash : Text
  pub staff_id : Text
  pub expires_at : ℕ

pub record StaffAssignment : Type 0 where
  pub staff_id : Text
  pub event_id : Text
  pub gate : Text

pub record TicketCheckin : Type 0 where
  pub ticket_id : Text
  pub staff_id : Text
  pub event_id : Text
  pub gate : Text
  pub checked_in_at : ℕ

pub data Outcome : Type 0 where
  checked_in invalid_request forbidden ticket_not_found order_not_paid event_changed : Outcome
  wrong_gate ticket_already_used : Outcome

pub record CheckinAttempt : Type 0 where
  pub checked_in_ticket_id : Option Text
  pub ticket_code : Option Text
  pub event_id : Option Text
  pub gate : Option Text
  pub staff_id : Text
  pub staff_name : Text
  pub outcome : Outcome
  pub recorded_at : ℕ
  pub checked_in_at : Option ℕ

pub data RefundStatus : Type 0 where
  requested processing unknown succeeded failed manual_required : RefundStatus

pub record OrderRefund : Type 0 where
  pub id : Text
  pub order_id : Text
  pub status : RefundStatus
  pub original_status : OrderStatus
  pub amount : ℕ
  pub reason : Text
  pub requested_by : Text
  pub refund_key : Text
  pub gateway_order_id : Text
  pub transaction_id : Text
  pub attempts : ℕ
  pub last_error : Text
  pub next_attempt_at : ℕ
  pub lease_until : Option ℕ
  pub claim_token : Option Text
  pub retry_deadline : Option ℕ
  pub completed_at : Option ℕ
  pub manual_reference : Text
  pub manual_paid_at : Option ℕ

pub data AuditAction : Type 0 where
  requested manual_required manual_confirmed succeeded failed : AuditAction

pub record RefundAudit : Type 0 where
  pub refund_id : Text
  pub staff_id : Text
  pub action : AuditAction
  pub reason : Text

-- The e-mail that tells the buyer how a refund ended, with the refund as it was then.
pub record RefundEmail : Type 0 where
  pub dedupe_key : Text
  pub order_id : Text
  pub recipient : Text
  pub status : RefundStatus
  pub amount : ℕ
  pub reason : Text
  pub reference : Text

pub record Db : Type 0 where
  pub events : List Event
  pub event_changes : List EventChange
  pub change_orders : List ChangeOrder
  pub refund_rights : List RefundRight
  pub tiers : List Tier
  pub reservations : List ReservationRow
  pub reservation_items : List ReservationItem
  pub orders : List Order
  pub order_items : List OrderItem
  pub payments : List Payment
  pub buyers : List Buyer
  pub attendees : List Attendee
  pub etickets : List Eticket
  pub payment_cases : List PaymentCase
  pub vouchers : List VoucherRow
  pub order_vouchers : List OrderVoucher
  pub settings : Option SettingsRow
  pub staff_users : List StaffUser
  pub staff_sessions : List StaffSession
  pub staff_assignments : List StaffAssignment
  pub ticket_checkins : List TicketCheckin
  pub checkin_attempts : List CheckinAttempt
  pub order_refunds : List OrderRefund
  pub refund_audit : List RefundAudit
  pub refund_emails : List RefundEmail

abbrev pub empty_db : Db
empty_db = record {
  events = [];
  event_changes = [];
  change_orders = [];
  refund_rights = [];
  tiers = [];
  reservations = [];
  reservation_items = [];
  orders = [];
  order_items = [];
  payments = [];
  buyers = [];
  attendees = [];
  etickets = [];
  payment_cases = [];
  vouchers = [];
  order_vouchers = [];
  settings = Option.none;
  staff_users = [];
  staff_sessions = [];
  staff_assignments = [];
  ticket_checkins = [];
  checkin_attempts = [];
  order_refunds = [];
  refund_audit = [];
  refund_emails = [];
}
