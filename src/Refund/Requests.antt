-- ===== src/Refund/Requests.antt =====
-- What a request for a refund (refund.go, submit) may leave: nothing, a refund reopened, or a new one.
use ticket_online.Common.{
  ◌≡◌, refl, ◌∙◌, Bool, true, false, none, some, arith, ◌≢◌, ◌⊎◌, List, ap, select?, select?-update,
  select?-update_other,
}
use ticket_online.Common.Text.{Text, same, same_iff}
use ticket_online.Errors.{Error, driver}
use ticket_online.Sql.{Result, ok, err, exec}
use ticket_online.Sql.Frame.{Frame, Frame-exec}
use ticket_online.Payment.Status.{is_succeeded}
use ticket_online.Payment.Expiry.{order_row, payment_row}
use ticket_online.Schema.{OrderStatus, AuditAction, RefundStatus, Order, Payment, OrderRefund, Db}
use ticket_online.Refund.Finish.{refund_row, set_order_status, write_audit}
use ticket_online.Refund.Submit.{RefundResult, has_checkin, is_refundable}

-- The refunds and the orders.
abbrev pub touched : Db → List OrderRefund × List Order
touched d = (d.order_refunds, d.orders)

pub Frame-write_audit :
    (id staff_id : Text) (action : AuditAction) (reason : Text)
    → Frame touched (exec (write_audit id staff_id action reason))
Frame-write_audit id staff_id action reason = Frame-exec _ λ w. unfold write_audit in refl

abbrev pub pending_order : Order → Order
pending_order o = record o { status = OrderStatus.refund_pending }

abbrev pub open_again : OrderRefund → OrderRefund
open_again r = record r { status = RefundStatus.manual_required; completed_at = none }

-- The order of the refund waits for it, and the other orders and refunds are as they were.
pub record IsPending (d d' : Db) (id : Text) (o : Order) : Type 0 where
  pub was : order_row id d ≡ some o
  pub waits : order_row id d' ≡ some (pending_order o)
  pub other_orders : (j : Text) → same j id ≡ false → order_row j d' ≡ order_row j d
  pub other_refunds : (j : Text) → same j id ≡ false → refund_row j d' ≡ refund_row j d

-- A new refund, of what the order's payment has taken. Only an event change asks for one that is paid
-- by hand; staff asks for none of an order whose ticket is used.
pub record IsNew (d : Db) (is_event : Bool) (id : Text) (o : Order) (q : OrderRefund) : Type 0 where
  pub payment : Payment
  pub paid_by : payment_row id d ≡ some payment
  pub succeeded : is_succeeded payment.status ≡ true
  pub whole : payment.amount ≡ o.total
  pub refundable : is_refundable o.status ≡ true
  pub begun :
      (q.status ≡ RefundStatus.requested)
      ⊎ ((q.status ≡ RefundStatus.manual_required) × (is_event ≡ true))
  pub amount : q.amount ≡ o.total
  pub original : q.original_status ≡ o.status
  pub unused : is_event ≡ false → has_checkin id d ≡ false

module _ (is_event : Bool) (id : Text) (d : Db) where
  pub data Asks : Result RefundResult → Db → Type 0 where
    fails : (e : Error) → Asks (err e) d
    repeated :
        (r : OrderRefund) (x : RefundResult)
        → refund_row id d ≡ some r
        → x.status ≡ r.status
        → (is_event ≡ true → r.status ≢ RefundStatus.failed)
        → Asks (ok x) d
    reopens :
        (r : OrderRefund) (o : Order) (x : RefundResult) (d' : Db)
        → refund_row id d ≡ some r
        → r.status ≡ RefundStatus.failed
        → is_event ≡ true
        → refund_row id d' ≡ some (open_again r)
        → IsPending d d' id o
        → Asks (ok x) d'
    asks :
        (q : OrderRefund) (o : Order) (x : RefundResult) (d' : Db)
        → refund_row id d ≡ none
        → refund_row id d' ≡ some q
        → IsNew d is_event id o q
        → IsPending d d' id o
        → Asks (ok x) d'

  abbrev pub lost : Asks (err driver) d
  lost = fails driver

  pub set_refund_pending :
      (o : Order) (w : Db) (orders : List Order)
      → order_row id d ≡ some o
      → orders ≡ (set_order_status id OrderStatus.refund_pending d).orders
      → (select? (λ q. same q.id id) orders ≡ some (pending_order o))
        × ((j : Text) → same j id ≡ false → select? (λ q. same q.id j) orders ≡ order_row j d)
  unfolding set_order_status
  set_refund_pending o w orders found e = (
    ap (select? (λ q. same q.id id)) e
        ∙ select?-update (λ q. same q.id id) pending_order d.orders (λ _. refl) found,
    λ j other.
        ap (select? (λ q. same q.id j)) e
        ∙ select?-update_other (λ q. same q.id id) (λ q. same q.id j) pending_order d.orders
            (λ _. refl)
            (λ q mine. ground (arith, same_iff q.id id, same_iff q.id j, same_iff j id)),
  )
