-- ===== src/Base/Sort.antt =====
-- Rows in ascending order of a key: `orderBy: { …: "asc" }`.
use Prim.Native.Nat.{ℕ, zero, suc, ◌≤◌}
use mathlib.Core.List.{List, [], ◌∷◌, Perm}
use mathlib.Core.List.Perm
use native.Mathlib.Omega.{arith}
use room_booking.Base.Tests.{leb, if◌then◌else◌, Bool-cases}
use mathlib.Core.Path.{◌≡◌, refl, ap, ◌∙◌}
use mathlib.Core.Bool.{Bool, ◌||◌}
use room_booking.Base.Lists.{All, All-map, Pairwise, any_row, take, All-take}
use mathlib.Core.Logic.{inl, inr}

module _ {ℓ} {A : Type ℓ} (key : A → ℕ) where
  insert_by : A → List A → List A
  insert_by x [] = x ∷ []
  insert_by x (y ∷ ys) =
      let rest = insert_by x ys in if leb (key x) (key y) then x ∷ y ∷ ys else y ∷ rest

  unfoldable pub sort_by : List A → List A
  unfolding insert_by
  sort_by [] = []
  sort_by (x ∷ xs) = insert_by x (sort_by xs)

  abbrev pub IsSorted : List A → Type 0
  IsSorted [] = Unit
  IsSorted (x ∷ xs) = All (λ y. key x ≤ key y) xs × IsSorted xs

  insert_by-perm : (x : A) (xs : List A) → Perm (insert_by x xs) (x ∷ xs)
  unfolding insert_by
  insert_by-perm x [] = Perm.refl (x ∷ [])
  insert_by-perm x (y ∷ ys) = elim (Bool-cases (leb (key x) (key y))) [
    | inl e ↦ rw e (Perm.refl (x ∷ y ∷ ys))
    | inr e ↦ rw e (Perm.trans (Perm.cons y (insert_by-perm x ys)) (Perm.swap x y ys))
  ]

  pub sort_by-perm : (xs : List A) → Perm (sort_by xs) xs
  unfolding sort_by
  sort_by-perm [] = Perm.refl []
  sort_by-perm (x ∷ xs) = Perm.trans (insert_by-perm x (sort_by xs)) (Perm.cons x (sort_by-perm xs))

  insert_by-All {κ} :
      (P : A → Type κ) (x : A) (xs : List A) → P x → All P xs → All P (insert_by x xs)
  unfolding insert_by
  insert_by-All P x [] h a = (h, tt)
  insert_by-All P x (y ∷ ys) h a = elim (Bool-cases (leb (key x) (key y))) [
    | inl e ↦ rw e (h, a)
    | inr e ↦ rw e (a.0, insert_by-All P x ys h a.1)
  ]

  pub sort_by-All {κ} : (P : A → Type κ) (xs : List A) → All P xs → All P (sort_by xs)
  unfolding sort_by
  sort_by-All P [] a = tt
  sort_by-All P (x ∷ xs) a = insert_by-All P x (sort_by xs) a.0 (sort_by-All P xs a.1)

  insert_by-IsSorted : (x : A) (xs : List A) → IsSorted xs → IsSorted (insert_by x xs)
  unfolding insert_by
  insert_by-IsSorted x [] s = (tt, tt)
  insert_by-IsSorted x (y ∷ ys) s = elim (Bool-cases (leb (key x) (key y))) [
    | inl e ↦
        let below : key x ≤ key y = ground arith in
        rw e ((below, All-map ys (λ z h. omega arith) s.0), s)
    | inr e ↦
        rw e
          (insert_by-All (λ z. key y ≤ key z) x ys (ground arith) s.0, insert_by-IsSorted x ys s.1)
  ]

  pub sort_by-IsSorted : (xs : List A) → IsSorted (sort_by xs)
  unfolding sort_by
  sort_by-IsSorted [] = tt
  sort_by-IsSorted (x ∷ xs) = insert_by-IsSorted x (sort_by xs) (sort_by-IsSorted xs)

  insert_by-Pairwise {κ} :
      (R : A → A → Type κ) (x : A) (xs : List A)
      → ((y z : A) → R y z → R z y)
      → All (λ y. R y x) xs
      → Pairwise R xs
      → Pairwise R (insert_by x xs)
  unfolding insert_by
  insert_by-Pairwise R x [] flip a d = (tt, tt)
  insert_by-Pairwise R x (y ∷ ys) flip a d = elim (Bool-cases (leb (key x) (key y))) [
    | inl e ↦ rw e (a, d)
    | inr e ↦
        rw e (
          insert_by-All (λ z. R z y) x ys (flip y x a.0) d.0,
          insert_by-Pairwise R x ys flip a.1 d.1,
        )
  ]

  pub sort_by-Pairwise {κ} :
      (R : A → A → Type κ) (xs : List A)
      → ((y z : A) → R y z → R z y)
      → Pairwise R xs
      → Pairwise R (sort_by xs)
  unfolding sort_by
  sort_by-Pairwise R [] flip d = tt
  sort_by-Pairwise R (x ∷ xs) flip d =
      insert_by-Pairwise R x (sort_by xs) flip (sort_by-All (λ y. R y x) xs d.0)
        (sort_by-Pairwise R xs flip d.1)

  insert_by-any_row :
      (p : A → Bool) (x : A) (xs : List A) → any_row p (insert_by x xs) ≡ (p x || any_row p xs)
  unfolding insert_by
  insert_by-any_row p x [] = refl
  insert_by-any_row p x (y ∷ ys) = elim (Bool-cases (leb (key x) (key y))) [
    | inl e ↦ rw e refl
    | inr e ↦ rw (e, insert_by-any_row p x ys) (ground arith)
  ]

  pub any_row-sort_by : (p : A → Bool) (xs : List A) → any_row p (sort_by xs) ≡ any_row p xs
  unfolding sort_by
  any_row-sort_by p [] = refl
  any_row-sort_by p (x ∷ xs) =
      insert_by-any_row p x (sort_by xs) ∙ ap (λ b. p x || b) (any_row-sort_by p xs)

  pub take-IsSorted : (n : ℕ) (xs : List A) → IsSorted xs → IsSorted (take n xs)
  take-IsSorted zero xs s = tt
  take-IsSorted (suc n) [] s = tt
  take-IsSorted (suc n) (x ∷ xs) s =
      (All-take (λ y. key x ≤ key y) n xs s.0, take-IsSorted n xs s.1)
