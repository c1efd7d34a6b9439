-- ===== src/Subscription/Keeping.antt =====
-- The end of Pro access keeps the bookings consistent.
use room_booking.Base.{ℕ, List, [], ◌∷◌, Bool}
use room_booking.Store.Rows.{User}
use room_booking.Store.Tx.{Triple, Unchanged, triple_rules}
use room_booking.Store.Tables.{update_users}
use room_booking.Store.World.{Keeps}
use room_booking.Store.World.Keeping.{keeps_rules}
use room_booking.Retry.Attempts.{Keeps-with_serializable_retry}
use room_booking.Bookings.Invariant.{Inv}
use room_booking.Subscription.Entitlement.{expire_user_tx}
use room_booking.Subscription.Entitlement.Ends.{cancel_for_users-Inv}
use room_booking.Subscription.Access.{expire_users, expire_due_pro_access}

update_users-Inv :
    (p : User → Bool) (f : User → User) → Triple Inv (update_users p f) (Unchanged Inv)
unfolding update_users
update_users-Inv p f = record { at = λ db v. v }

ruleset plan_rules = (triple_rules, update_users-Inv, cancel_for_users-Inv)

expire_user_tx-Inv : (now id : ℕ) → Triple Inv (expire_user_tx now id) (Unchanged Inv)
unfolding expire_user_tx
expire_user_tx-Inv now id = search plan_rules depth 20

expire_users-Inv : (now : ℕ) (ids : List ℕ) → Keeps Inv (expire_users now ids)
unfolding expire_users
expire_users-Inv now [] = search keeps_rules
expire_users-Inv now (id ∷ ids) =
    let one = Keeps-with_serializable_retry _ (expire_user_tx-Inv now id) in
    let rest = expire_users-Inv now ids in search (keeps_rules, one, rest) depth 20

pub expire_due_pro_access-Inv : (now : ℕ) → Keeps Inv (expire_due_pro_access now)
unfolding expire_due_pro_access
expire_due_pro_access-Inv now = search (keeps_rules, expire_users-Inv)
