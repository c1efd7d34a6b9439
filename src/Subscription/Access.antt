-- ===== src/Subscription/Access.antt =====
-- `expireDueProAccess` of api/src/subscription/recurring-entitlement.service.ts.
use room_booking.Base.{ℕ, ◌+◌, List, [], ◌∷◌, map, where_rows, take}
use room_booking.Base.Sort.{sort_by}
use room_booking.Store.World.{Api, pure, queries, ◌>>=◌}
use room_booking.Retry.{with_serializable_retry}
use room_booking.Subscription.Entitlement.{Expired, is_expired, expires_at, expire_user_tx}

-- the loop over the candidates
unfoldable pub expire_users : ℕ → List ℕ → Api Expired
expire_users now [] = pure (record { users = 0; series = 0; bookings = 0 })
expire_users now (id ∷ ids) = with_serializable_retry (expire_user_tx now id) >>= λ one.
    expire_users now ids >>= λ rest. pure (record {
      users = one.users + rest.users;
      series = one.series + rest.series;
      bookings = one.bookings + rest.bookings;
    })

unfoldable pub expire_due_pro_access : ℕ → Api Expired
expire_due_pro_access now =
    queries
      (λ db. map (λ u. u.id) (take 100 (sort_by expires_at (where_rows (is_expired now) db.users))))
    >>= expire_users now
