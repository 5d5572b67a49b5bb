-- ===== src/Payment/History.antt =====
-- Sequences of payments, reports of Midtrans and expiries (payment.go, midtrans.go, midtrans_status.go,
-- expiry.go), in any order.
use ticket_online.Common.{ℕ, Option, List, [], ◌∷◌}
use ticket_online.Common.Text.{Text}
use ticket_online.Schema.{Db}
use ticket_online.Payment.Tickets.{Draw}
use ticket_online.Payment.Simulate.{simulate}
use ticket_online.Payment.Gateway.{apply_gateway_status}
use ticket_online.Payment.Expiry.{expire_order_locally}
use ticket_online.Payment.Reconcile.{
  Answers, expire_order_with_midtrans, expire_order_with_midtrans-Backed,
}
use ticket_online.Payment.Backed.{Backed}
use ticket_online.Payment.Reports.{apply_gateway_status-Backed}
use ticket_online.Payment.Settling.{simulate-Backed, expire_order_locally-Backed}

pub data Call : Type 0 where
  simulated : ℕ → Draw → Text → Text → Text → Text → Call
  reported : ℕ → Draw → Text → Text → Text → Text → Call
  expired : ℕ → Text → Text → Call
  reconciled : ℕ → Draw → Answers → Text → Call

-- One call on a session of its own, which may lose its connection after some statements.
unfoldable pub serve : Option ℕ × Call → Db → Db
serve (remaining, simulated now draw payment id method outcome) d =
    (simulate now draw payment id method outcome
      (record { stored = d; working = d; remaining = remaining })).1.stored
serve (remaining, reported now draw gw amount transaction fraud) d =
    (apply_gateway_status now draw gw amount transaction fraud
      (record { stored = d; working = d; remaining = remaining })).1.stored
serve (remaining, expired now id expected) d =
    (expire_order_locally now id expected
      (record { stored = d; working = d; remaining = remaining })).1.stored
serve (remaining, reconciled now draw answers id) d =
    (expire_order_with_midtrans now draw answers id
      (record { stored = d; working = d; remaining = remaining })).1.stored

unfoldable pub serve_all : List (Option ℕ × Call) → Db → Db
unfolding serve
serve_all [] d = d
serve_all (c ∷ cs) d = serve_all cs (serve c d)

serve-Backed : (c : Option ℕ × Call) (d : Db) → Backed d → Backed (serve c d)
unfolding serve
serve-Backed (remaining, simulated now draw payment id method outcome) d b =
    simulate-Backed now draw payment id method outcome _ b
serve-Backed (remaining, reported now draw gw amount transaction fraud) d b =
    apply_gateway_status-Backed now draw gw amount transaction fraud _ b
serve-Backed (remaining, expired now id expected) d b =
    expire_order_locally-Backed now id expected _ b
serve-Backed (remaining, reconciled now draw answers id) d b =
    expire_order_with_midtrans-Backed now draw answers id _ b

-- Any sequence of simulated payments, reports of Midtrans, local expiries and expiries that ask
-- Midtrans first, each losing its connection at any statement, keeps that each order has one payment
-- at most and that each paid order has a payment that succeeded.
pub serve_all-Backed : (cs : List (Option ℕ × Call)) (d : Db) → Backed d → Backed (serve_all cs d)
unfolding serve_all
serve_all-Backed [] d b = b
serve_all-Backed (c ∷ cs) d b = serve_all-Backed cs _ (serve-Backed c d b)
