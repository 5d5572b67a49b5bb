-- ===== src/Reservation/Reads.antt =====
-- The reading parts of repository.go, as functions of the tables, and what restoring writes.
use ticket_online.Common.{Option, List, [], ◌∷◌}
use ticket_online.Common.Text.{Text}
use ticket_online.Errors.{no_rows}
use ticket_online.Sql.{Result, ok}
use ticket_online.Sql.Reads.{
  Reads, from_option, ◌then_ok◌, Reads-pure, Reads-query, Reads-or_raise, Reads-bind,
}
use ticket_online.Sql.Runs.{Writes, Writes-pure, Writes-exec, Writes-bind, Writes-query}
use ticket_online.Schema.{Tier, ReservationItem, Db}
use ticket_online.EventState.{
  State, read_in, read, event_of_reservation, event_of_order, for_reservation, for_order,
}
use ticket_online.Reservation.Store.{
  ReservationRecord, ResponseItem, header_of, items_of, join_tiers, get_record, restore_tier,
  restore_loop, restore_items,
}

unfoldable pub read_result : Text → Db → Result State
read_result id d = from_option (read_in id d) no_rows

pub Reads-read : (id : Text) → Reads (read id) (read_result id)
unfolding read read_result
Reads-read id =
    Reads-bind _ _ _ (λ o d. from_option o no_rows) (Reads-query (read_in id))
      (λ o. Reads-or_raise o no_rows)

unfoldable pub state_of_reservation : Text → Db → Result State
state_of_reservation id d =
    from_option (event_of_reservation id d) no_rows then_ok λ event. read_result event d

pub Reads-for_reservation : (id : Text) → Reads (for_reservation id) (state_of_reservation id)
unfolding for_reservation state_of_reservation
Reads-for_reservation id =
    Reads-bind _ _ _ (λ o d. from_option o no_rows then_ok λ event. read_result event d)
      (Reads-query (event_of_reservation id))
      (λ o. Reads-bind _ _ _ (λ event d. read_result event d) (Reads-or_raise o no_rows) Reads-read)

unfoldable pub state_of_order : Text → Db → Result State
state_of_order id d = from_option (event_of_order id d) no_rows then_ok λ event. read_result event d

pub Reads-for_order : (id : Text) → Reads (for_order id) (state_of_order id)
unfolding for_order state_of_order
Reads-for_order id =
    Reads-bind _ _ _ (λ o d. from_option o no_rows then_ok λ event. read_result event d)
      (Reads-query (event_of_order id))
      (λ o. Reads-bind _ _ _ (λ event d. read_result event d) (Reads-or_raise o no_rows) Reads-read)

abbrev record_of : Text → Option ReservationRecord → Db → Result ReservationRecord
record_of id o d =
    from_option o no_rows then_ok λ h. ok (record h { items = join_tiers d.tiers (items_of id d) })

unfoldable pub record_in : Text → Db → Result ReservationRecord
record_in id d = record_of id (header_of id d) d

pub Reads-get_record : (id : Text) → Reads (get_record id) (record_in id)
unfolding get_record record_in
Reads-get_record id = Reads-bind _ _ _ (record_of id) (Reads-query (header_of id)) (λ o.
    Reads-bind {A = ReservationRecord} _ _ _
      (λ h d. ok (record h { items = join_tiers d.tiers (items_of id d) }))
      (Reads-or_raise o no_rows)
      (λ h.
        Reads-bind {A = List ResponseItem} _ _ _ (λ items d. ok (record h { items = items }))
          (Reads-query _) (λ items. Reads-pure _)))

-- Restoring every item of a list, in its order.
unfoldable pub restore_all : List ReservationItem → List Tier → List Tier
restore_all [] ts = ts
restore_all (i ∷ is) ts = restore_all is (restore_tier i ts)

abbrev pub restored : List ReservationItem → Db → Db
restored items d = record d { tiers = restore_all items d.tiers }

Writes-restore_loop : (items : List ReservationItem) → Writes (restore_loop items) (restored items)
unfolding restore_loop restore_all
Writes-restore_loop [] = Writes-pure tt
Writes-restore_loop (i ∷ is) = Writes-bind _ _ _ _ (Writes-exec _) (λ _. Writes-restore_loop is)

pub Writes-restore_items : (id : Text) → Writes (restore_items id) (λ d. restored (items_of id d) d)
unfolding restore_items
Writes-restore_items id = Writes-query _ _ _ Writes-restore_loop
