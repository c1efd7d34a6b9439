-- ===== src/Store/Tx.antt =====
-- A transaction (`tx` of the source): it reads and writes the database and may throw. A throw drops
-- what was written.
use room_booking.Base.{
  ℕ, suc, ◌≡◌, Bool, true, false, Option, none, some, arith, refl, if◌then◌else◌,
}
use room_booking.Errors.{Result, ok, err, Error}
use room_booking.Store.Rows.{Db}

abbrev pub Tx : Type 0 → Type 0
Tx A = Db → Result (A × Db)

abbrev pub pure : {A : Type 0} → A → Tx A
pure a db = ok (a, db)

abbrev pub throw : {A : Type 0} → Error → Tx A
throw e db = err e

infixl 5 ◌>>=◌ ◌>>◌
abbrev pub ◌>>=◌ : {A B : Type 0} → Tx A → (A → Tx B) → Tx B
◌>>=◌ m f db = elim (m db) [ ok (a, db') ↦ f a db' | err e ↦ err e ]

abbrev pub ◌>>◌ : {B : Type 0} → Tx (Unit {0}) → Tx B → Tx B
m >> k = m >>= λ _. k

-- a read of the database
abbrev pub reads : {A : Type 0} → (Db → A) → Tx A
reads f db = ok (f db, db)

-- a read that may throw
abbrev pub checks : {A : Type 0} → (Db → Result A) → Tx A
checks f db = elim (f db) [ ok a ↦ ok (a, db) | err e ↦ err e ]

-- `if (bad) throw e`
abbrev pub throw_if : Bool → Error → Tx (Unit {0})
throw_if true e = throw e
throw_if false e = pure tt

-- `if (!value) throw e`
abbrev pub require : {A : Type 0} → Option A → Error → Tx A
require none e = throw e
require (some a) e = pure a

-- a fresh row id
abbrev pub fresh_id : Tx ℕ
fresh_id db = ok (db.next_id, record db { next_id = suc db.next_id })

-- `new Date()`
abbrev pub new_date : Tx ℕ
new_date = reads (λ db. db.clock)

-- What holds of the result and the database when a transaction returns; a throw is no promise.
abbrev pub Ensures : {A : Type 0} → Result (A × Db) → (A → Db → Type 0) → Type 0
Ensures (ok (a, db)) Q = Q a db
Ensures (err e) Q = Unit

-- a Hoare triple
pub record Triple {A : Type 0} (P : Db → Type 0) (m : Tx A) (Q : A → Db → Type 0) : Type 0 where
  pub at : (db : Db) → P db → Ensures (m db) Q

pub Ensures-intro :
    {A : Type 0} (Q : A → Db → Type 0) (r : Result (A × Db))
    → ((a : A) (db : Db) → r ≡ ok (a, db) → Q a db)
    → Ensures r Q
Ensures-intro Q (ok (a, db)) h = h a db refl
Ensures-intro Q (err e) h = tt

pub Ensures-elim :
    {A : Type 0} (Q : A → Db → Type 0) (m : Tx A) (db : Db) (a : A) (db' : Db)
    → Ensures (m db) Q
    → m db ≡ ok (a, db')
    → Q a db'
Ensures-elim Q m db a db' h e = rw e at h

pub >>=-ok :
    {A B : Type 0} (m : Tx A) (f : A → Tx B) {db : Db} {a : A} {db₁ : Db}
    → m db ≡ ok (a, db₁)
    → (m >>= f) db ≡ f a db₁
>>=-ok m f e = ground arith

pub >>=-eq-ok :
    {A B : Type 0} (m : Tx A) (f : A → Tx B) {db : Db} {b : B} {db' : Db}
    → (m >>= f) db ≡ ok (b, db')
    → (a : A) × (db₁ : Db) × (m db ≡ ok (a, db₁)) × (f a db₁ ≡ ok (b, db'))
>>=-eq-ok {A} {B} m f {db} {b} {db'} h = go (m db) refl h
  where
    go :
        (r : Result (A × Db))
        → m db ≡ r
        → (elim r [ ok (a, db₁) ↦ f a db₁ | err e ↦ err e ]) ≡ ok (b, db')
        → (a : A) × (db₁ : Db) × (m db ≡ ok (a, db₁)) × (f a db₁ ≡ ok (b, db'))
    go (ok (a, db₁)) e h = (a, db₁, e, h)
    go (err x) e h = absurd (ground arith)

-- Rules of a transaction that leaves `I` as it found it.
abbrev pub Unchanged : {A : Type 0} → (Db → Type 0) → A → Db → Type 0
Unchanged I a db = I db

module _ {I : Db → Type 0} where
  pub Triple-pure : {A : Type 0} (a : A) → Triple I (pure a) (Unchanged I)
  Triple-pure a = record { at = λ db p. p }

  pub Triple-reads : {A : Type 0} (f : Db → A) → Triple I (reads f) (Unchanged I)
  Triple-reads f = record { at = λ db p. p }

  pub Triple-checks : {A : Type 0} (f : Db → Result A) → Triple I (checks f) (Unchanged I)
  Triple-checks {A} f = record { at = λ db p. go db p (f db) }
    where
      go :
          (db : Db)
          → I db
          → (r : Result A)
          → Ensures {A = A} (elim r [ ok a ↦ ok (a, db) | err e ↦ err e ]) (Unchanged I)
      go db p (ok a) = p
      go db p (err e) = tt

  pub Triple-require :
      {A : Type 0} (o : Option A) (e : Error) → Triple I (require o e) (Unchanged I)
  Triple-require none e = record { at = λ db p. tt }
  Triple-require (some a) e = Triple-pure a

  pub Triple-throw_if : (b : Bool) (e : Error) → Triple I (throw_if b e) (Unchanged I)
  Triple-throw_if true e = record { at = λ db p. tt }
  Triple-throw_if false e = Triple-pure tt

  pub Triple-if :
      {A : Type 0} (b : Bool) (m n : Tx A)
      → Triple I m (Unchanged I)
      → Triple I n (Unchanged I)
      → Triple I (if b then m else n) (Unchanged I)
  Triple-if true m n hm hn = hm
  Triple-if false m n hm hn = hn

  pub Triple-then :
      {A B : Type 0} (m : Tx A) (f : A → Tx B)
      → Triple I m (Unchanged I)
      → ((a : A) → Triple I (f a) (Unchanged I))
      → Triple I (m >>= f) (Unchanged I)
  Triple-then {A} {B} m f tm tf = record {
    at = λ db p. Ensures-intro (Unchanged I) _ (λ b db' e.
        let (a, db₁, e₁, e₂) = >>=-eq-ok m f e in
        Ensures-elim (Unchanged I) (f a) db₁ b db'
          ((tf a).at db₁ (Ensures-elim (Unchanged I) m db a db₁ (tm.at db p) e₁)) e₂);
  }

pub ruleset triple_rules = (
  Triple-pure, Triple-reads, Triple-checks, Triple-require, Triple-throw_if, Triple-if, Triple-then,
)

module _ {A B : Type 0} where
  pub Triple-bind :
      {P : Db → Type 0} {Q : B → Db → Type 0} (R : A → Db → Type 0) (m : Tx A) (f : A → Tx B)
      → Triple P m R
      → ((a : A) → Triple (R a) (f a) Q)
      → Triple P (m >>= f) Q
  Triple-bind {P} {Q} R m f tm tf = record {
    at = λ db p. Ensures-intro Q _ (λ b db' e.
        let (a, db₁, e₁, e₂) = >>=-eq-ok m f e in
        Ensures-elim Q (f a) db₁ b db' ((tf a).at db₁ (Ensures-elim R m db a db₁ (tm.at db p) e₁))
          e₂);
  }
