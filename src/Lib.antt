-- ===== src/Lib.antt =====
-- Ticket sales (backend/internal/*), as functions on the tables of backend/migrations/*.sql.
--
-- Buyers reserve tickets of an event's tiers (reservation), turn a reservation into an order
-- (checkout), and pay for it at a price with an administration fee and vouchers (pricing). An event
-- may be moved, postponed or cancelled; eventstate tells the other parts what is still allowed. Workers end
-- reservations whose time is over, and operations watches servers and workers. Staff (staffauth)
-- admit tickets at the gates (checkin) and give money back (refund).
--
--   Common, Common/*      names of the library, lists, Boolean tests and text
--   Errors                the errors of all packages
--   Sql, Sql/*            database/sql: transactions as actions on a session, and rules for proofs
--   Schema                rows and tables
--   EventState, /Gates    backend/internal/eventstate/state.go
--   Reservation, /*       backend/internal/reservation: Request is service.go; Store, Transactions
--                         and Create are repository.go and worker.go; History is handler.go. Reads,
--                         Keys, Ledger, Holding, Sound, Stock, Creating and Calls build up the proof
--                         of the stock ledger, Valid is about requests, Atomic about failed calls
--   Pricing, /*           backend/internal/pricing/pricing.go
--   Payment, /*           backend/internal/payment: Tickets and Simulate are payment.go; Expiry is
--                         expiry.go with the end of midtrans_status.go; Status and Gateway are
--                         midtrans_status.go and midtrans.go, as are Reconcile and Snap.
--                         Untouched, Backed, Reports and Settling build up the proof that a paid
--                         order has its payment, History is about sequences of calls, Settled
--                         about reports that change nothing, Expiring about local expiries
--   Checkout, /*          backend/internal/checkout/checkout.go: Checkout is Validate, Asked is Quote,
--                         loadItems and what Create checks, Create its writes. Frames says which
--                         parts leave orders and reservations alone, Outcomes what Create may
--                         leave, Placed proves it, OnSale says which events it sells tickets of
--   StaffAuth, /*         backend/internal/staffauth/service.go: StaffAuth is sessions and rights,
--                         Accounts the accounts, Limiter the login limiter. Access reads a session,
--                         Revoked is about revoked ones, Windows and Lockout about the limiter
--   Checkin, /*           backend/internal/checkin/checkin.go. Admission says what a call may do,
--                         Steps proves it part by part, Log is about sequences of calls, Served
--                         about tickets that are let in, Codes about the codes of tickets
--   Refund, /*            backend/internal/refund: Provider, Finish, Submit and Queue are refund.go,
--                         Manual is manual.go. Lifecycle is the step relation of a refund's status;
--                         Rows, Finishing, Releasing, Claiming and Passes prove that the worker keeps
--                         to it. Requests says what a request may leave, Asking and Submitting
--                         prove it, Confirming is about refunds paid by hand, Completing about
--                         refunds that have ended
--   Operations, /*        backend/internal/operations/operations.go
--   */Examples            concrete runs
--
-- Modelling. A SQL statement is a function on the record of all tables. A transaction works on a
-- copy of the stored tables; `commit` stores the copy, and returning without it leaves the stored
-- tables alone, which is what the deferred Rollback does. Transactions run one after another: the
-- code locks the event, the reservation and the tiers before it reads what it decides on. A session
-- counts down the statements until its connection is lost (`remaining`), so a theorem over sessions
-- covers a failure at every statement. Keys and CHECKs that the code relies on are tests of the
-- statements that write. Clocks and random identifiers are arguments; a failure of the random
-- source is not modelled. SHA-256 (`digest` of a request, `hash` of a token), the format of times
-- (`TimeFormat`, `parse`), mail.ParseAddress, net.SplitHostPort and the hashing of passwords are
-- parameters. Text is a list of bytes, trimmed and compared as ASCII. `uint64` arithmetic keeps
-- its wrap-around (`u64`). Loops are structural, but for `digits` of Payment/Status, whose
-- fuel is the number itself: each step divides it by ten.
--
-- Not modelled: HTTP, JSON, logging and configuration, the read-only reports and lists (the history
-- of check-ins among them), the catalog and poster administration, the HTTP calls of Midtrans (their
-- answers are a parameter), the order page of checkout, email, recovery, conversion counts, event
-- changes, and of the staff accounts the login with the checking of passwords, but for its use of
-- the limiter. The stock ledger is about the calls of backend/internal/reservation among
-- themselves; the release of an unpaid order's stock in
-- backend/internal/payment/expiry.go and the stock of a refunded order are not among them.
pub mod Common
pub mod Errors
pub mod Sql
pub mod Schema
pub mod EventState
pub mod Reservation
pub mod Pricing
pub mod Payment
pub mod Operations
pub mod StaffAuth
pub mod Checkin
pub mod Checkout
pub mod Refund
