-- ===== src/Store/World/Keeping.antt =====
-- What service calls keep, one rule for each way to build a call.
use room_booking.Base.{
  ℕ, ◌≡◌, refl, Bool, true, false, Option, none, some, List, [], ◌∷◌, All, if◌then◌else◌,
}
use room_booking.Errors.{Result, ok, err, Error}
use room_booking.Store.Rows.{Db}
use room_booking.Store.Tx.{Unchanged, Tx, Triple, Ensures}
use room_booking.Store.World.{
  Attempt, NotificationType, World, Api, pure, throw, continue, recover, catches, queries, require,
  notify, transaction, take_attempt, run_attempt, settle, arrive, Holds, Keeps, ◌>>=◌,
}

module _ {A : Type 0} {I : Db → Type 0} where
  pub Keeps-pure : (a : A) → Keeps I (pure a)
  Keeps-pure a = record { at = λ w h. h }

  pub Keeps-throw : (e : Error) → Keeps I (throw {A = A} e)
  Keeps-throw e = record { at = λ w h. h }

  pub Keeps-queries : (f : Db → A) → Keeps I (queries f)
  Keeps-queries f = record { at = λ w h. h }

  pub Keeps-require : (o : Option A) (e : Error) → Keeps I (require o e)
  Keeps-require none e = Keeps-throw e
  Keeps-require (some a) e = Keeps-pure a

  pub Keeps-if : (b : Bool) (m n : Api A) → Keeps I m → Keeps I n → Keeps I (if b then m else n)
  Keeps-if true m n hm hn = hm
  Keeps-if false m n hm hn = hn

  recover-Holds :
      (r : Result A × World) (handler : Error → Api A)
      → Holds I r.1
      → ((e : Error) → Keeps I (handler e))
      → Holds I (recover r handler).1
  recover-Holds (ok a, w) handler h k = h
  recover-Holds (err e, w) handler h k = (k e).at w h

  pub Keeps-catches :
      (m : Api A) (handler : Error → Api A)
      → Keeps I m
      → ((e : Error) → Keeps I (handler e))
      → Keeps I (catches m handler)
  Keeps-catches m handler km kh = record { at = λ w h. recover-Holds (m w) handler (km.at w h) kh }

  run-Holds :
      (op : Tx A) (fault : Option Error) (w : World)
      → Triple I op (Unchanged I)
      → Holds I w
      → Holds I (run_attempt op fault w).1
  run-Holds op (some e) w t h = h
  run-Holds op none w t h = settled (op w.db) (t.at w.db h.now)
    where
      settled : (r : Result (A × Db)) → Ensures r (Unchanged I) → Holds I (settle w r).1
      settled (ok (a, db)) p = record { now = p; others = h.others }
      settled (err e) p = h

  take_attempt-Holds :
      (op : Tx A) (attempts : List Attempt) (w : World)
      → Triple I op (Unchanged I)
      → Holds I w
      → All (λ (a : Attempt). (db : Db) → I db → I (a.others db)) attempts
      → Holds I (take_attempt op attempts w).1
  unfolding take_attempt
  take_attempt-Holds op [] w t h o = run-Holds op none w t h
  take_attempt-Holds op (a ∷ rest) w t h o =
      run-Holds op a.fault (arrive a rest w) t (record { now = o.0 w.db h.now; others = o.1 })

  pub Keeps-transaction : (op : Tx A) → Triple I op (Unchanged I) → Keeps I (transaction op)
  unfolding transaction
  Keeps-transaction op t = record { at = λ w h. take_attempt-Holds op w.schedule w t h h.others }

-- a transaction with nothing ahead of it on the schedule
module _ {A : Type 0} (op : Tx A) (w : World) (calm : w.schedule ≡ []) where
  pub transaction-err : (e : Error) → op w.db ≡ err e → transaction op w ≡ (err e, w)
  unfolding transaction take_attempt
  transaction-err e h = rw (calm, h) refl

  pub transaction-ok :
      (a : A) (db : Db) → op w.db ≡ ok (a, db) → transaction op w ≡ (ok a, record w { db = db })
  unfolding transaction take_attempt
  transaction-ok a db h = rw (calm, h) refl

pub Keeps-notify :
    {I : Db → Type 0} (kind : NotificationType) (booking_id : ℕ) → Keeps I (notify kind booking_id)
Keeps-notify kind booking_id = record { at = λ w h. record { now = h.now; others = h.others } }

module _ {A B : Type 0} {I : Db → Type 0} where
  continue-Holds :
      (r : Result A × World) (f : A → Api B)
      → Holds I r.1
      → ((a : A) → Keeps I (f a))
      → Holds I (continue r f).1
  continue-Holds (ok a, w) f h k = (k a).at w h
  continue-Holds (err e, w) f h k = h

  pub Keeps-bind :
      (m : Api A) (f : A → Api B) → Keeps I m → ((a : A) → Keeps I (f a)) → Keeps I (m >>= f)
  Keeps-bind m f km kf = record { at = λ w h. continue-Holds (m w) f (km.at w h) kf }

pub ruleset keeps_rules = (
  Keeps-pure, Keeps-throw, Keeps-queries, Keeps-require, Keeps-if, Keeps-catches, Keeps-notify,
  Keeps-bind,
)
