-- ===== src/Errors.antt =====
-- The errors of the backend's packages (backend/internal/*), as one type, since one package
-- passes on another's. `driver` stands for every error of the database driver or the server.
pub data Error : Type 0 where
  driver no_rows duplicate_key : Error
  -- eventstate
  closed : Error
  -- reservation
  invalid_request event_not_found tier_not_found insufficient_stock order_limit_exceeded : Error
  idempotency_conflict reservation_not_found reservation_expired reservation_cancelled : Error
  reservation_not_expired reservation_converted : Error
  -- pricing
  voucher_unavailable invalid conflict : Error
  -- payment
  order_not_found order_not_payable payment_conflict incomplete_tickets payment_attempt_changed :
      Error
  provider : Error
  -- staffauth
  unauthorized forbidden credentials rate_limited invalid_input not_found duplicate_email : Error
  admin_exists : Error
  -- checkin
  ticket_not_found wrong_gate order_not_paid ticket_used : Error
  -- refund
  refund_invalid refund_unavailable claim_lost mismatch : Error
  -- checkout
  access_denied : Error
