-- ===== src/Bookings/Safe.antt =====
-- Every operation of api/src/booking/booking.service.ts keeps the invariant, whatever other
-- clients that keep it do between the attempts, and whatever faults the database reports.
use room_booking.Base.{
  ℕ, suc, ◌+◌, if_elim, Bool, true, false, Option, none, some, List, [], ◌∷◌, Text, if◌then◌else◌,
  Bool-cases, inl, inr,
}
use room_booking.Errors.{
  Result, ok, err, Error, policy_with, Alternative, plain, check_in, series_with, database,
  undefined_error, PolicyCode,
}
use room_booking.Store.Rows.{Room, Role, Booking, confirmed, status_eq, WaitlistEntry}
use room_booking.Store.Tx.{Unchanged, Triple, triple_rules}
use room_booking.Store.World.{World, Api, Holds, Keeps}
use room_booking.Store.World.Keeping.{
  Keeps-transaction, Keeps-bind, Keeps-catches, Keeps-pure, keeps_rules,
}
use room_booking.Retry.Attempts.{Keeps-with_serializable_retry}
use room_booking.Policy.{BookingPolicyConfig}
use room_booking.Bookings.Events.{BookingActor}
use room_booking.Bookings.Create.{
  CreateBookingData, create_booking, with_alternatives, rethrow_with, suggest_tx, notify_confirmed,
  conflict_of, is_overlap_code,
}
use room_booking.Bookings.Visits.{WalkInData, generate_qr, check_in_by_device, create_walk_in}
use room_booking.Bookings.Waitlist.{
  join_waitlist, leave_waitlist, expire_waitlist_entry, promote_first, promote_waitlist,
  promote_due_waitlist, expire_all, promote_all, after_candidate, on_error, is_room_code,
}
use room_booking.Bookings.Waitlist.Entries.{WaitlistData}
use room_booking.Bookings.Service.{
  cancel_booking, approve_booking, reject_booking, force_delete_booking, check_out,
  expire_due_bookings, complete_due_bookings, throw_if, move_all, count_move, is_stale_move,
}
use room_booking.Series.Cancelling.Kept.{cancel_occurrence-Inv, cancel_series-Inv}
use room_booking.Subscription.Keeping.{expire_due_pro_access-Inv}
use room_booking.Bookings.Calls.{
  Call, call, serve, create, approve, reject, cancel, force_delete, issue_qr, visit, walk_in,
  leave_room, join, leave, promote_due, expire_due, complete_due, expire_pro, drop_occurrence,
  drop_series,
}
use room_booking.Bookings.Invariant.{Inv}
use room_booking.Bookings.Moves.{transition_booking-Inv}
use room_booking.Bookings.Creates.{create_booking_tx-Inv}
use room_booking.Bookings.VisitMoves.{
  check_in_by_device_tx-Inv, find_for_qr-Inv, generate_qr_tx-Inv, create_walk_in_tx-Inv,
}
use room_booking.Bookings.WaitlistMoves.{
  join_waitlist_tx-Inv, find_waiting-Inv, leave_waitlist_tx-Inv, expire_waitlist_entry_tx-Inv,
  promote_tx-Inv,
}

throw_if-Inv : (b : Bool) (e : Error) → Keeps Inv (throw_if b e)
throw_if-Inv true e = search keeps_rules
throw_if-Inv false e = search keeps_rules

count_move-Inv :
    (r : Result Booking × World) (rest : Api ℕ)
    → Holds Inv r.1
    → Keeps Inv rest
    → Holds Inv (count_move r rest).1
count_move-Inv (ok b, w) rest h k = (Keeps-bind rest _ k (λ n. Keeps-pure (suc n))).at w h
count_move-Inv (err e, w) rest h k = elim (Bool-cases (is_stale_move e)) [
  | inl stale ↦ rw stale (k.at w h)
  | inr other ↦ rw other h
]

move_all-Inv :
    (move : ℕ → Api Booking) (bs : List Booking) (k : (id : ℕ) → Keeps Inv (move id))
    → Keeps Inv (move_all move bs)
unfolding move_all
move_all-Inv move [] k = record { at = λ w h. h }
move_all-Inv move (b ∷ bs) k = record {
  at = λ w h.
      count_move-Inv (move b.id w) (move_all move bs) ((k b.id).at w h) (move_all-Inv move bs k);
}

check_out-Inv : (id : ℕ) (actor : BookingActor) → Keeps Inv (check_out id actor)
unfolding check_out
check_out-Inv id actor = search (keeps_rules, transition_booking-Inv)

pub expire_due_bookings-Inv :
    (now : ℕ) (actor : BookingActor) → Keeps Inv (expire_due_bookings now actor)
unfolding expire_due_bookings
expire_due_bookings-Inv now actor = search (keeps_rules, transition_booking-Inv, move_all-Inv)

pub complete_due_bookings-Inv :
    (now : ℕ) (actor : BookingActor) → Keeps Inv (complete_due_bookings now actor)
unfolding complete_due_bookings
complete_due_bookings-Inv now actor = search (keeps_rules, check_out-Inv, move_all-Inv)

approve_booking-Inv :
    (id admin_id : ℕ) (correlation_id : Option ℕ)
    → Keeps Inv (approve_booking id admin_id correlation_id)
unfolding approve_booking
approve_booking-Inv id admin_id correlation_id = search (keeps_rules, transition_booking-Inv)

expire_waitlist_entry-Inv :
    (id room_id : ℕ) (actor : BookingActor) (now : ℕ)
    → Keeps Inv (expire_waitlist_entry id room_id actor now)
unfolding expire_waitlist_entry
expire_waitlist_entry-Inv id room_id actor now =
    Keeps-transaction _ (expire_waitlist_entry_tx-Inv id room_id actor now)

leave_waitlist-Inv :
    (id user_id : ℕ) (correlation_id : Option ℕ)
    → Keeps Inv (leave_waitlist id user_id correlation_id)
unfolding leave_waitlist
leave_waitlist-Inv id user_id correlation_id =
    Keeps-bind _ _ (Keeps-transaction _ (find_waiting-Inv id user_id))
      (λ entry. Keeps-transaction _ (leave_waitlist_tx-Inv user_id correlation_id entry))

generate_qr-Inv :
    (hash : ℕ → ℕ) (qr_token id user_id : ℕ) (role : Role) (now : ℕ) (correlation_id : Option ℕ)
    → Keeps Inv (generate_qr hash qr_token id user_id role now correlation_id)
unfolding generate_qr
generate_qr-Inv hash qr_token id user_id role now correlation_id =
    Keeps-bind _ _ (Keeps-transaction _ (find_for_qr-Inv id user_id role now)) (λ booking.
      Keeps-transaction _
        (generate_qr_tx-Inv hash qr_token user_id role now correlation_id booking))

abbrev HoldsAfter : {A : Type 0} → Result A × World → Type 0
HoldsAfter r = Holds Inv r.1

-- a result that leaves the world alone
stay-Inv :
    {A : Type 0} (b : Bool) (r s : Result A) (w : World)
    → Holds Inv w
    → HoldsAfter (if b then (r, w) else (s, w))
stay-Inv b r s w h = if_elim HoldsAfter b (r, w) (s, w) (λ y. h) (λ n. h)

on_error-Inv : (e : Error) (rest : Api Bool) → Keeps Inv rest → Keeps Inv (on_error e rest)
on_error-Inv (policy_with code alternatives) rest k = record {
  at =
      λ w h. if_elim HoldsAfter (is_room_code code) (ok false, w) (rest w) (λ y. h) (λ n. k.at w h);
}
on_error-Inv (check_in code) rest k = record { at = λ w h. stay-Inv _ _ _ w h }
on_error-Inv (series_with code conflicts) rest k = record { at = λ w h. stay-Inv _ _ _ w h }
on_error-Inv (plain m) rest k = record { at = λ w h. stay-Inv _ _ _ w h }
on_error-Inv (database c z) rest k = record { at = λ w h. stay-Inv _ _ _ w h }
on_error-Inv undefined_error rest k = record { at = λ w h. stay-Inv _ _ _ w h }

after_candidate-Inv :
    (r : Result (Option ℕ) × World) (rest : Api Bool)
    → Holds Inv r.1
    → Keeps Inv rest
    → Holds Inv (after_candidate r rest).1
after_candidate-Inv (ok none, w) rest h k = k.at w h
after_candidate-Inv (ok (some id), w) rest h k = record { now = h.now; others = h.others }
after_candidate-Inv (err e, w) rest h k = (on_error-Inv e rest k).at w h

expire_all-Inv :
    (actor : BookingActor) (now : ℕ) (es : List WaitlistEntry) → Keeps Inv (expire_all actor now es)
unfolding expire_all
expire_all-Inv actor now [] = search keeps_rules
expire_all-Inv actor now (e ∷ es) =
    Keeps-bind _ _ (expire_waitlist_entry-Inv e.id e.room_id actor now)
      (λ one. Keeps-bind _ _ (expire_all-Inv actor now es) (λ rest. Keeps-pure (one + rest)))

module _ (config : BookingPolicyConfig) where
  join_waitlist-Inv : (data_in : WaitlistData) → Keeps Inv (join_waitlist config data_in)
  unfolding join_waitlist
  join_waitlist-Inv data_in = Keeps-with_serializable_retry _ (join_waitlist_tx-Inv config data_in)

  promote_first-Inv :
      (room_id start end_time : ℕ) (actor : BookingActor) (cs : List WaitlistEntry)
      → Keeps Inv (promote_first config room_id start end_time actor cs)
  unfolding promote_first
  promote_first-Inv room_id start end_time actor [] = record { at = λ w h. h }
  promote_first-Inv room_id start end_time actor (c ∷ cs) = record {
    at = λ w h.
        after_candidate-Inv _ (promote_first config room_id start end_time actor cs)
          ((Keeps-with_serializable_retry _
              (promote_tx-Inv config room_id start end_time actor c.id)).at
            w h)
          (promote_first-Inv room_id start end_time actor cs);
  }

  promote_waitlist-Inv :
      (room_id start end_time : ℕ) (actor : BookingActor)
      → Keeps Inv (promote_waitlist config room_id start end_time actor)
  unfolding promote_waitlist
  promote_waitlist-Inv room_id start end_time actor = search (keeps_rules, promote_first-Inv)

  promote_all-Inv :
      (actor : BookingActor) (es : List WaitlistEntry) → Keeps Inv (promote_all config actor es)
  unfolding promote_all
  promote_all-Inv actor [] = Keeps-pure 0
  promote_all-Inv actor (e ∷ es) =
      Keeps-bind _ _ (promote_waitlist-Inv e.room_id e.start_time e.end_time actor)
        (λ done. Keeps-bind _ _ (promote_all-Inv actor es) (λ rest. Keeps-pure _))

  pub promote_due_waitlist-Inv :
      (now : ℕ) (actor : BookingActor) → Keeps Inv (promote_due_waitlist config now actor)
  unfolding promote_due_waitlist
  promote_due_waitlist-Inv now actor =
      search (keeps_rules, expire_all-Inv, promote_all-Inv) depth 20

  cancel_booking-Inv :
      (id user_id : ℕ) (role : Role) (reason : Option Text) (correlation_id : Option ℕ)
      → Keeps Inv (cancel_booking config id user_id role reason correlation_id)
  unfolding cancel_booking
  cancel_booking-Inv id user_id role reason correlation_id =
      search (keeps_rules, throw_if-Inv, transition_booking-Inv, promote_waitlist-Inv) depth 20

  reject_booking-Inv :
      (id admin_id : ℕ) (reason : Text) (correlation_id : Option ℕ)
      → Keeps Inv (reject_booking config id admin_id reason correlation_id)
  unfolding reject_booking
  reject_booking-Inv id admin_id reason correlation_id =
      search (keeps_rules, transition_booking-Inv, promote_waitlist-Inv) depth 20

  force_delete_booking-Inv :
      (id admin_id : ℕ) (correlation_id : Option ℕ)
      → Keeps Inv (force_delete_booking config id admin_id correlation_id)
  unfolding force_delete_booking
  force_delete_booking-Inv id admin_id correlation_id =
      search (keeps_rules, throw_if-Inv, cancel_booking-Inv) depth 20

  create_walk_in-Inv :
      (data_in : WalkInData) (now : ℕ) → Keeps Inv (create_walk_in config data_in now)
  unfolding create_walk_in
  create_walk_in-Inv data_in now =
      Keeps-with_serializable_retry _ (create_walk_in_tx-Inv config data_in now)

  module _ (by_name : List Room → List Room) where
    suggest_tx-Inv :
        (data_in : CreateBookingData)
        → Triple Inv (suggest_tx config by_name data_in) (Unchanged Inv)
    unfolding suggest_tx
    suggest_tx-Inv data_in = search triple_rules

    rethrow_with-Inv :
        (code : PolicyCode) (before : List Alternative) (r : Result (List Alternative) × World)
        → Holds Inv r.1
        → Holds Inv (rethrow_with config by_name code before r).1
    rethrow_with-Inv code before (ok a, w) h = h
    rethrow_with-Inv code before (err e, w) h = h

    with_alternatives-Inv :
        (data_in : CreateBookingData) (e : Error)
        → Keeps Inv (with_alternatives config by_name data_in e)
    unfolding with_alternatives
    with_alternatives-Inv data_in (policy_with code before) = record {
      at = λ w h.
          if_elim HoldsAfter (is_overlap_code config code) _ (err (policy_with code before), w)
            (λ y.
              rethrow_with-Inv code before _
                ((Keeps-transaction _ (suggest_tx-Inv data_in)).at w h))
            (λ n. h);
    }
    with_alternatives-Inv data_in (check_in code) = record { at = λ w h. h }
    with_alternatives-Inv data_in (series_with code conflicts) = record { at = λ w h. h }
    with_alternatives-Inv data_in (plain m) = record { at = λ w h. h }
    with_alternatives-Inv data_in (database c z) = record { at = λ w h. h }
    with_alternatives-Inv data_in undefined_error = record { at = λ w h. h }

    notify_confirmed-Inv : (b : Booking) → Keeps Inv (notify_confirmed config by_name b)
    unfolding notify_confirmed
    notify_confirmed-Inv b = record {
      at = λ w h.
          if_elim HoldsAfter (status_eq b.status confirmed) _ _
            (λ y. record { now = h.now; others = h.others }) (λ n. h);
    }

    create_booking-Inv :
        (data_in : CreateBookingData) → Keeps Inv (create_booking config by_name data_in)
    unfolding create_booking
    create_booking-Inv data_in =
        Keeps-catches _ _
          (Keeps-bind _ _ (Keeps-with_serializable_retry _ (create_booking_tx-Inv config data_in))
            notify_confirmed-Inv)
          (λ e. with_alternatives-Inv data_in (conflict_of config e))

module _ (config : BookingPolicyConfig) (by_name : List Room → List Room) (hash : ℕ → ℕ) where
  call-Inv : (c : Call) (w : World) → Holds Inv w → Holds Inv (call config by_name hash c w)
  unfolding call check_in_by_device
  call-Inv (create d) w h = (create_booking-Inv config by_name d).at w h
  call-Inv (approve i a c) w h = (approve_booking-Inv i a c).at w h
  call-Inv (reject i a r c) w h = (reject_booking-Inv config i a r c).at w h
  call-Inv (cancel i u r t c) w h = (cancel_booking-Inv config i u r t c).at w h
  call-Inv (force_delete i a c) w h = (force_delete_booking-Inv config i a c).at w h
  call-Inv (issue_qr q i u r n c) w h = (generate_qr-Inv hash q i u r n c).at w h
  call-Inv (visit q d c n) w h =
      (Keeps-with_serializable_retry _ (check_in_by_device_tx-Inv hash q d c n)).at w h
  call-Inv (walk_in d n) w h = (create_walk_in-Inv config d n).at w h
  call-Inv (leave_room i a) w h = (check_out-Inv i a).at w h
  call-Inv (join d) w h = (join_waitlist-Inv config d).at w h
  call-Inv (leave i u c) w h = (leave_waitlist-Inv i u c).at w h
  call-Inv (promote_due n a) w h = (promote_due_waitlist-Inv config n a).at w h
  call-Inv (expire_due n a) w h = (expire_due_bookings-Inv n a).at w h
  call-Inv (complete_due n a) w h = (complete_due_bookings-Inv n a).at w h
  call-Inv (expire_pro n) w h = (expire_due_pro_access-Inv n).at w h
  call-Inv (drop_occurrence s b a r) w h = (cancel_occurrence-Inv s b a r).at w h
  call-Inv (drop_series s c a f) w h = (cancel_series-Inv s c a f).at w h

  -- Whatever calls the services are given, in any order, with any faults of the database and any
  -- changes of other clients that keep the invariant: a world where the invariant holds stays
  -- one. It says that no two active bookings of a room or of a user overlap, that bookings have
  -- distinct ids, positive length and attendees, that every recorded event follows an edge of the
  -- state machine from where the events before it have left its booking, and that each booking
  -- has the status that its newest event gave it.
  pub serve-Inv :
      (cs : List Call) (w : World) → Holds Inv w → Holds Inv (serve config by_name hash cs w)
  unfolding serve
  serve-Inv [] w h = h
  serve-Inv (c ∷ cs) w h = serve-Inv cs (call config by_name hash c w) (call-Inv c w h)
