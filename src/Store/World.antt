-- ===== src/Store/World.antt =====
-- What a service call runs in: the database, and what other clients do meanwhile.
--
-- `prisma.$transaction` takes the next attempt of the schedule: first the transactions that others
-- have committed since, then either a fault that the database reports for this one, or its body as
-- one step. That is what a serializable transaction is; one that is read committed and writes after
-- a read is two calls of `transaction`. An attempt past the end of the schedule runs undisturbed. `outbox` has the calls of
-- the notification service.
pub mod Keeping
use room_booking.Base.{ℕ, ◌≡◌, refl, Option, none, some, List, [], ◌∷◌, All, arith}
use room_booking.Errors.{Result, ok, err, Error}
use room_booking.Store.Rows.{Db}
use room_booking.Store.Tx.{Tx, Triple, Ensures}

pub record Attempt : Type 0 where
  pub others : Db → Db
  pub fault : Option Error

pub data NotificationType : Type 0 where
  booking_approved booking_rejected waitlist_promoted : NotificationType

pub record World : Type 0 where
  pub db : Db
  pub schedule : List Attempt
  pub outbox : List (NotificationType × ℕ)

abbrev pub Api : Type 0 → Type 0
Api A = World → Result A × World

abbrev pub pure : {A : Type 0} → A → Api A
pure a w = (ok a, w)

abbrev pub throw : {A : Type 0} → Error → Api A
throw e w = (err e, w)

abbrev pub continue : {A B : Type 0} → Result A × World → (A → Api B) → Result B × World
continue (ok a, w) f = f a w
continue (err e, w) f = (err e, w)

infixl 5 ◌>>=◌ ◌>>◌
abbrev pub ◌>>=◌ : {A B : Type 0} → Api A → (A → Api B) → Api B
◌>>=◌ m f w = continue (m w) f

abbrev pub ◌>>◌ : {B : Type 0} → Api (Unit {0}) → Api B → Api B
m >> k = m >>= λ _. k

-- `try { … } catch (error) { handler }`
abbrev pub recover : {A : Type 0} → Result A × World → (Error → Api A) → Result A × World
recover (ok a, w) handler = (ok a, w)
recover (err e, w) handler = handler e w

abbrev pub catches : {A : Type 0} → Api A → (Error → Api A) → Api A
catches m handler w = recover (m w) handler

-- a query outside a transaction
abbrev pub queries : {A : Type 0} → (Db → A) → Api A
queries f w = (ok (f w.db), w)

abbrev pub require : {A : Type 0} → Option A → Error → Api A
require none e = throw e
require (some a) e = pure a

abbrev pub notify : NotificationType → ℕ → Api (Unit {0})
notify kind booking_id w = (ok tt, record w { outbox = (kind, booking_id) ∷ w.outbox })

abbrev settle : {A : Type 0} → World → Result (A × Db) → Result A × World
settle w (ok (a, db)) = (ok a, record w { db = db })
settle w (err e) = (err e, w)

abbrev run_attempt : {A : Type 0} → Tx A → Option Error → World → Result A × World
run_attempt op none w = settle w (op w.db)
run_attempt op (some e) w = (err e, w)

abbrev pub arrive : Attempt → List Attempt → World → World
arrive a rest w = record w { db = a.others w.db; schedule = rest }

take_attempt : {A : Type 0} → Tx A → List Attempt → World → Result A × World
take_attempt op [] w = run_attempt op none w
take_attempt op (a ∷ rest) w = run_attempt op a.fault (arrive a rest w)

-- `prisma.$transaction(op)`
unfoldable pub transaction : {A : Type 0} → Tx A → Api A
unfolding take_attempt
transaction op w = take_attempt op w.schedule w

-- What every client keeps: it holds of the database, and each scheduled client keeps it.
pub record Holds (I : Db → Type 0) (w : World) : Type 0 where
  pub now : I w.db
  pub others : All (λ (a : Attempt). (db : Db) → I db → I (a.others db)) w.schedule

pub record Keeps {A : Type 0} (I : Db → Type 0) (m : Api A) : Type 0 where
  pub at : (w : World) → Holds I w → Holds I (m w).1
