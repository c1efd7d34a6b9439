-- ===== src/Base/Lists.antt =====
-- Lists as tables: predicates on every row, Boolean searches, filters and counts.
use Prim.Native.Nat.{ℕ, zero, suc, ◌+◌, ◌≤◌}
use mathlib.Core.Path.{◌≡◌, refl, ap, sym, ◌∙◌}
use mathlib.Core.Bool.{Bool, true, false, ◌||◌}
use mathlib.Core.Option.{Option, none, some}
use mathlib.Core.List.{List, [], ◌∷◌, map, reverse, reverse_aux}
use native.Mathlib.Omega.{arith}
use mathlib.Core.Logic.{inl, inr}
use room_booking.Base.Tests.{if◌then◌else◌, Bool-cases, ◌==◌}

module _ {ℓ} {A : Type ℓ} where
  abbrev pub length : List A → ℕ
  length [] = 0
  length (x ∷ xs) = suc (length xs)

  abbrev pub take : ℕ → List A → List A
  take zero xs = []
  take (suc n) [] = []
  take (suc n) (x ∷ xs) = x ∷ take n xs

  pub length-take_le : (n : ℕ) (xs : List A) → length (take n xs) ≤ n
  length-take_le zero xs = omega arith
  length-take_le (suc n) [] = omega arith
  length-take_le (suc n) (x ∷ xs) = omega (arith, length-take_le n xs)

  pub take-eq_of_length_le : (n : ℕ) (xs : List A) → length xs ≤ n → take n xs ≡ xs
  take-eq_of_length_le zero [] h = refl
  take-eq_of_length_le zero (x ∷ xs) h = absurd (omega arith)
  take-eq_of_length_le (suc n) [] h = refl
  take-eq_of_length_le (suc n) (x ∷ xs) h =
      ap (λ ys. x ∷ ys) (take-eq_of_length_le n xs (omega arith))

  -- every element satisfies a predicate
  abbrev pub All {κ} : (A → Type κ) → List A → Type κ
  All P [] = Unit
  All P (x ∷ xs) = P x × All P xs

  -- the rows that satisfy a test
  abbrev pub where_rows : (A → Bool) → List A → List A
  where_rows p [] = []
  where_rows p (x ∷ xs) = let rest = where_rows p xs in if p x then x ∷ rest else rest

  -- the first row that satisfies a test
  abbrev pub find_first : (A → Bool) → List A → Option A
  find_first p [] = none
  find_first p (x ∷ xs) = if p x then some x else find_first p xs

  -- how many rows satisfy a test
  abbrev pub count_rows : (A → Bool) → List A → ℕ
  count_rows p [] = 0
  count_rows p (x ∷ xs) = let rest = count_rows p xs in if p x then suc rest else rest

  -- apply an update to the rows that satisfy a test
  abbrev pub update_rows : (A → Bool) → (A → A) → List A → List A
  update_rows p f [] = []
  update_rows p f (x ∷ xs) = (if p x then f x else x) ∷ update_rows p f xs

  pub find_first_sound :
      (p : A → Bool) (xs : List A) (x : A) → find_first p xs ≡ some x → p x ≡ true
  find_first_sound p [] x h = ground arith
  find_first_sound p (y ∷ xs) x h = ground (arith, find_first_sound p xs x)

  pub find_first-none :
      (p : A → Bool) (xs : List A) → find_first p xs ≡ none → All (λ x. p x ≡ false) xs
  find_first-none p [] h = tt
  find_first-none p (y ∷ xs) h = ground (arith, find_first-none p xs)

  pub All-find_first {κ} :
      (P : A → Type κ) (p : A → Bool) (xs : List A) (x : A)
      → All P xs
      → find_first p xs ≡ some x
      → P x
  All-find_first P p [] x a h = absurd (ground arith)
  All-find_first P p (y ∷ xs) x a h = ground (arith, All-find_first P p xs x a.1)

  pub All-map {κ ρ} :
      {P : A → Type κ} {Q : A → Type ρ} (xs : List A) → ((x : A) → P x → Q x) → All P xs → All Q xs
  All-map [] h a = tt
  All-map (x ∷ xs) h a = (h x a.0, All-map xs h a.1)

  pub All-zip {κ ρ} :
      (P : A → Type κ) (Q : A → Type ρ) (xs : List A)
      → All P xs
      → All Q xs
      → All (λ x. P x × Q x) xs
  All-zip P Q [] a b = tt
  All-zip P Q (x ∷ xs) a b = ((a.0, b.0), All-zip P Q xs a.1 b.1)

  pub All-update_rows {κ ρ} :
      {P : A → Type κ} (Q : A → Type ρ) (p : A → Bool) (f : A → A) (xs : List A)
      → ((x : A) → P x → Q (if p x then f x else x))
      → All P xs
      → All Q (update_rows p f xs)
  All-update_rows Q p f [] h a = tt
  All-update_rows Q p f (x ∷ xs) h a = (h x a.0, All-update_rows Q p f xs h a.1)

  abbrev pub is_empty : List A → Bool
  is_empty [] = true
  is_empty (x ∷ xs) = false

  pub All-where_rows {κ} :
      (P : A → Type κ) (p : A → Bool) (xs : List A)
      → ((x : A) → p x ≡ true → P x)
      → All P (where_rows p xs)
  All-where_rows P p [] h = tt
  All-where_rows P p (x ∷ xs) h =
      let rest = All-where_rows P p xs h in
      elim (Bool-cases (p x)) [ inl y ↦ rw y (h x y, rest) | inr n ↦ rw n rest ]

  pub where_rows-All {κ} :
      (P : A → Type κ) (p : A → Bool) (xs : List A) → All P xs → All P (where_rows p xs)
  where_rows-All P p [] a = tt
  where_rows-All P p (x ∷ xs) a =
      let rest = where_rows-All P p xs a.1 in
      elim (Bool-cases (p x)) [ inl y ↦ rw y (a.0, rest) | inr n ↦ rw n rest ]

  -- updates with tests that agree on every row
  pub update_rows-ext :
      (p q : A → Bool) (f : A → A) (xs : List A)
      → All (λ x. p x ≡ q x) xs
      → update_rows p f xs ≡ update_rows q f xs
  update_rows-ext p q f [] a = refl
  update_rows-ext p q f (x ∷ xs) a = rw (a.0, update_rows-ext p q f xs a.1) refl

  pub update_rows-none :
      (p : A → Bool) (f : A → A) (xs : List A) → All (λ x. p x ≡ false) xs → update_rows p f xs ≡ xs
  update_rows-none p f [] a = refl
  update_rows-none p f (x ∷ xs) a = rw (a.0, update_rows-none p f xs a.1) refl

  -- whether some row satisfies a test
  abbrev pub any_row : (A → Bool) → List A → Bool
  any_row p [] = false
  any_row p (x ∷ xs) = p x || any_row p xs

  -- every two elements, the later one first
  abbrev pub Pairwise {κ} : (A → A → Type κ) → List A → Type κ
  Pairwise R [] = Unit
  Pairwise R (x ∷ xs) = All (λ y. R y x) xs × Pairwise R xs

  pub where_rows-Pairwise {κ} :
      (R : A → A → Type κ) (p : A → Bool) (xs : List A)
      → Pairwise R xs
      → Pairwise R (where_rows p xs)
  where_rows-Pairwise R p [] d = tt
  where_rows-Pairwise R p (x ∷ xs) d =
      let rest = where_rows-Pairwise R p xs d.1 in
      elim (Bool-cases (p x)) [
        | inl y ↦ rw y (where_rows-All (λ z. R z x) p xs d.0, rest)
        | inr n ↦ rw n rest
      ]

  pub any_row-ext :
      (p q : A → Bool) (xs : List A) → ((x : A) → p x ≡ q x) → any_row p xs ≡ any_row q xs
  any_row-ext p q [] e = refl
  any_row-ext p q (x ∷ xs) e = rw (e x, any_row-ext p q xs e) refl

  pub where_rows-true :
      (p : A → Bool) (x : A) (xs : List A)
      → p x ≡ true
      → where_rows p (x ∷ xs) ≡ x ∷ where_rows p xs
  where_rows-true p x xs y = rw y refl

  pub where_rows-false :
      (p : A → Bool) (x : A) (xs : List A) → p x ≡ false → where_rows p (x ∷ xs) ≡ where_rows p xs
  where_rows-false p x xs n = rw n refl

  pub is_empty-eq : (xs : List A) → is_empty xs ≡ true → xs ≡ []
  is_empty-eq [] h = refl
  is_empty-eq (x ∷ xs) h = absurd (ground arith)

  pub where_rows-none :
      (p : A → Bool) (xs : List A) → where_rows p xs ≡ [] → All (λ x. p x ≡ false) xs
  where_rows-none p [] h = tt
  where_rows-none p (x ∷ xs) h = elim (Bool-cases (p x)) [
    | inl y ↦ absurd (ground (arith, where_rows-true p x xs y))
    | inr n ↦ (n, where_rows-none p xs (sym (where_rows-false p x xs n) ∙ h))
  ]

-- `in: ids`
abbrev pub includes_id : List ℕ → ℕ → Bool
includes_id [] id = false
includes_id (i ∷ is) id = i == id || includes_id is id

module _ {ℓ} {A : Type ℓ} where
  -- two lists of the same length, related row by row
  abbrev pub AllPairs : (A → A → Type 0) → List A → List A → Type 0
  AllPairs R [] [] = Unit
  AllPairs R (x ∷ xs) (y ∷ ys) = R x y × AllPairs R xs ys
  AllPairs R _ _ = ⊥

  pub AllPairs-refl : (R : A → A → Type 0) (xs : List A) → ((x : A) → R x x) → AllPairs R xs xs
  AllPairs-refl R [] h = tt
  AllPairs-refl R (x ∷ xs) h = (h x, AllPairs-refl R xs h)

  pub AllPairs-trans :
      (R : A → A → Type 0) (xs ys zs : List A)
      → ((x y z : A) → R x y → R y z → R x z)
      → AllPairs R xs ys
      → AllPairs R ys zs
      → AllPairs R xs zs
  AllPairs-trans R [] [] [] t a b = tt
  AllPairs-trans R [] [] (z ∷ zs) t a b = absurd b
  AllPairs-trans R [] (y ∷ ys) zs t a b = absurd a
  AllPairs-trans R (x ∷ xs) [] zs t a b = absurd a
  AllPairs-trans R (x ∷ xs) (y ∷ ys) [] t a b = absurd b
  AllPairs-trans R (x ∷ xs) (y ∷ ys) (z ∷ zs) t a b =
      (t x y z a.0 b.0, AllPairs-trans R xs ys zs t a.1 b.1)

  pub AllPairs-update_rows :
      (R : A → A → Type 0) (p : A → Bool) (f : A → A) (xs : List A)
      → ((x : A) → R x x)
      → All (λ x. p x ≡ true → R x (f x)) xs
      → AllPairs R xs (update_rows p f xs)
  AllPairs-update_rows R p f [] r a = tt
  AllPairs-update_rows R p f (x ∷ xs) r a =
      let rest = AllPairs-update_rows R p f xs r a.1 in
      elim (Bool-cases (p x)) [ inl y ↦ rw y (a.0 y, rest) | inr n ↦ rw n (r x, rest) ]

  pub any_row-take :
      (p : A → Bool) (n : ℕ) (xs : List A) → any_row p (take n xs) ≡ true → any_row p xs ≡ true
  any_row-take p zero xs h = absurd (ground arith)
  any_row-take p (suc n) [] h = absurd (ground arith)
  any_row-take p (suc n) (x ∷ xs) h = ground (arith, any_row-take p n xs)

  pub All-intro {κ} : (P : A → Type κ) (xs : List A) → ((x : A) → P x) → All P xs
  All-intro P [] h = tt
  All-intro P (x ∷ xs) h = (h x, All-intro P xs h)

  pub AllPairs-map :
      {P : A → Type 0} {R S : A → A → Type 0} (xs ys : List A)
      → ((x y : A) → P x → R x y → S x y)
      → All P xs
      → AllPairs R xs ys
      → AllPairs S xs ys
  AllPairs-map [] [] h a r = tt
  AllPairs-map [] (y ∷ ys) h a r = r
  AllPairs-map (x ∷ xs) [] h a r = r
  AllPairs-map (x ∷ xs) (y ∷ ys) h a r = (h x y a.0 r.0, AllPairs-map xs ys h a.1 r.1)

  pub count_rows-none :
      (p : A → Bool) (xs : List A) → All (λ x. p x ≡ false) xs → count_rows p xs ≡ 0
  count_rows-none p [] a = refl
  count_rows-none p (x ∷ xs) a = rw (a.0, count_rows-none p xs a.1) refl

  pub All-where :
      (P : A → Type 0) (p : A → Bool) (xs : List A)
      → All (λ x. p x ≡ true → P x) xs
      → All P (where_rows p xs)
  All-where P p [] a = tt
  All-where P p (x ∷ xs) a =
      let rest = All-where P p xs a.1 in
      elim (Bool-cases (p x)) [ inl y ↦ rw y (a.0 y, rest) | inr n ↦ rw n rest ]

  pub All-take : (P : A → Type 0) (n : ℕ) (xs : List A) → All P xs → All P (take n xs)
  All-take P zero xs a = tt
  All-take P (suc n) [] a = tt
  All-take P (suc n) (x ∷ xs) a = (a.0, All-take P n xs a.1)

  pub All-of_map :
      {B : Type 0} (P : B → Type 0) (f : A → B) (xs : List A)
      → All (λ x. P (f x)) xs
      → All P (map f xs)
  All-of_map P f [] a = tt
  All-of_map P f (x ∷ xs) a = (a.0, All-of_map P f xs a.1)

module _ {ℓ} {A : Type ℓ} where
  abbrev pub drop : ℕ → List A → List A
  drop zero xs = xs
  drop (suc n) [] = []
  drop (suc n) (x ∷ xs) = drop n xs

  pub All-drop : (P : A → Type 0) (n : ℕ) (xs : List A) → All P xs → All P (drop n xs)
  All-drop P zero xs a = a
  All-drop P (suc n) [] a = tt
  All-drop P (suc n) (x ∷ xs) a = All-drop P n xs a.1

  All-reverse_aux :
      (P : A → Type 0) (xs ys : List A) → All P xs → All P ys → All P (reverse_aux xs ys)
  All-reverse_aux P [] ys a b = b
  All-reverse_aux P (x ∷ xs) ys a b = All-reverse_aux P xs (x ∷ ys) a.1 (a.0, b)

  pub All-reverse : (P : A → Type 0) (xs : List A) → All P xs → All P (reverse xs)
  All-reverse P xs a = All-reverse_aux P xs [] a tt

  pub length-map : {B : Type 0} (f : A → B) (xs : List A) → length (map f xs) ≡ length xs
  length-map f [] = refl
  length-map f (x ∷ xs) = ap suc (length-map f xs)

  length-reverse_aux : (xs ys : List A) → length (reverse_aux xs ys) ≡ length xs + length ys
  length-reverse_aux [] ys = omega arith
  length-reverse_aux (x ∷ xs) ys = omega (arith, length-reverse_aux xs (x ∷ ys))

  pub length-reverse : (xs : List A) → length (reverse xs) ≡ length xs
  length-reverse xs = omega (arith, length-reverse_aux xs [])
