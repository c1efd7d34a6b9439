-- ===== src/Base/Keys.antt =====
-- Tables whose rows have distinct keys.
use Prim.Native.Nat.{ℕ}
use mathlib.Core.Path.{◌≡◌, refl, sym, ◌∙◌, subst}
use mathlib.Core.Logic.{◌≢◌, inl, inr}
use mathlib.Core.Bool.{Bool, false}
use mathlib.Core.Option.{some}
use mathlib.Core.List.{List, [], ◌∷◌, map}
use room_booking.Base.Tests.{◌==◌, ==_refl, ==_false, ==_sym, Bool-cases, if◌then◌else◌}
use room_booking.Base.Lists.{
  All, All-map, All-zip, Pairwise, any_row, where_rows, where_rows-true, where_rows-false,
  find_first, includes_id, update_rows, All-update_rows,
}

module _ {ℓ} {A : Type ℓ} (key : A → ℕ) where
  abbrev pub Distinct : List A → Type 0
  Distinct = Pairwise (λ c b. key c ≢ key b)

  -- whether a row is in the list, by its key
  abbrev pub is_listed : List A → A → Bool
  is_listed xs c = any_row (λ b. key c == key b) xs

  -- Each row is found by its key.
  pub found_by_key :
      (rows : List A)
      → Distinct rows
      → All (λ b. find_first (λ c. key c == key b) rows ≡ some b) rows
  found_by_key [] d = tt
  found_by_key (x ∷ rows) d = (
    rw (==_refl (key x)) refl,
    All-map rows (λ b h. rw (==_false (key x) (key b) (λ e. h.0 (sym e))) h.1)
        (All-zip (λ b. key b ≢ key x) (λ b. find_first (λ c. key c == key b) rows ≡ some b) rows d.0
          (found_by_key rows d.1)),
  )

  not_listed :
      (p : A → Bool) (c : A) (rows : List A)
      → All (λ b. key b ≢ key c) rows
      → is_listed (where_rows p rows) c ≡ false
  not_listed p c [] a = refl
  not_listed p c (x ∷ rows) a =
      let rest = not_listed p c rows a.1 in
      let miss = ==_false (key c) (key x) (λ e. a.0 (sym e)) in
      elim (Bool-cases (p x)) [ inl y ↦ rw (y, miss, rest) refl | inr n ↦ rw (n, rest) refl ]

  -- A row is among those that a query picks if it satisfies its condition.
  pub is_listed-where_rows :
      (p : A → Bool) (rows : List A)
      → Distinct rows
      → All (λ c. is_listed (where_rows p rows) c ≡ p c) rows
  is_listed-where_rows p [] d = tt
  is_listed-where_rows p (x ∷ rows) d =
      let rest =
        All-zip (λ c. key c ≢ key x) (λ c. is_listed (where_rows p rows) c ≡ p c) rows d.0
          (is_listed-where_rows p rows d.1) in
      elim (Bool-cases (p x)) [
        | inl y ↦
            subst (λ listed. All (λ c. is_listed listed c ≡ p c) (x ∷ rows))
              (sym (where_rows-true p x rows y))
              (
                rw (==_refl (key x), y) refl,
                All-map rows (λ c h. rw (==_false (key c) (key x) h.0) h.1) rest,
              )
        | inr n ↦
            subst (λ listed. All (λ c. is_listed listed c ≡ p c) (x ∷ rows))
              (sym (where_rows-false p x rows n))
              (not_listed p x rows d.0 ∙ sym n, All-map rows (λ c h. h.1) rest)
      ]

  pub includes_id-keys : (xs : List A) (c : A) → includes_id (map key xs) (key c) ≡ is_listed xs c
  includes_id-keys [] c = refl
  includes_id-keys (x ∷ xs) c = rw (includes_id-keys xs c, ==_sym (key x) (key c)) refl

  -- An update that keeps the keys keeps them distinct.
  pub update_rows-Distinct :
      (p : A → Bool) (f : A → A) (xs : List A)
      → ((x : A) → key (f x) ≡ key x)
      → Distinct xs
      → Distinct (update_rows p f xs)
  update_rows-Distinct p f [] same d = tt
  update_rows-Distinct p f (x ∷ xs) same d = (
    All-update_rows (λ c. key c ≢ key (if p x then f x else x)) p f xs
        (λ c h e. h (sym (kept c) ∙ e ∙ kept x)) d.0,
    update_rows-Distinct p f xs same d.1,
  )
    where
      kept : (c : A) → key (if p c then f c else c) ≡ key c
      kept c = elim (Bool-cases (p c)) [ inl y ↦ rw y (same c) | inr n ↦ rw n refl ]
