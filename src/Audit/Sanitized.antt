-- ===== src/Audit/Sanitized.antt =====
-- What `sanitizeAuditMetadata` of api/src/audit/audit.service.ts lets into the audit log.
use room_booking.Base.{
  ℕ, zero, suc, ◌+◌, ◌≤◌, ◌≡◌, refl, false, inl, inr, arith, length, length-take_le,
  take-eq_of_length_le, Bool-cases,
}
use room_booking.Json.{
  Json, null, bool, num, str, arr, obj, other, Items, nil, cons, Fields, end, field, Metadata,
  absent, present,
}
use room_booking.Audit.{
  truncated, max_metadata_keys, max_metadata_string_length, is_sensitive, sanitize_value,
  sanitize_items, sanitize_fields, sanitize_audit_metadata,
}

-- A value that may nest `left` levels deeper: no sensitive key, no text, list or object that is too
-- long, and where no level is left only the mark of a cut.
mutual
  pub IsClean : ℕ → Json → Type 0
  IsClean zero null = null ≡ truncated
  IsClean zero (bool b) = bool b ≡ truncated
  IsClean zero (num n) = num n ≡ truncated
  IsClean zero (str s) = str s ≡ truncated
  IsClean zero (arr xs) = arr xs ≡ truncated
  IsClean zero (obj fs) = obj fs ≡ truncated
  IsClean zero (other s) = other s ≡ truncated
  IsClean (suc left) null = Unit
  IsClean (suc left) (bool b) = Unit
  IsClean (suc left) (num n) = Unit
  IsClean (suc left) (str s) = length s ≤ max_metadata_string_length
  IsClean (suc left) (arr xs) = CleanItems left max_metadata_keys xs
  IsClean (suc left) (obj fs) = CleanFields left max_metadata_keys fs
  IsClean (suc left) (other s) = ⊥

  pub CleanItems : ℕ → ℕ → Items → Type 0
  CleanItems left n nil = Unit
  CleanItems left zero (cons x xs) = ⊥
  CleanItems left (suc n) (cons x xs) = IsClean left x × CleanItems left n xs

  pub CleanFields : ℕ → ℕ → Fields → Type 0
  CleanFields left n end = Unit
  CleanFields left zero (field k v fs) = ⊥
  CleanFields left (suc n) (field k v fs) =
      (is_sensitive k ≡ false) × IsClean left v × CleanFields left n fs

mutual
  unfolding sanitize_value sanitize_items sanitize_fields IsClean CleanItems CleanFields

  sanitize_value-IsClean :
      (v : Json) (left depth : ℕ) → left + depth ≡ 5 → IsClean left (sanitize_value depth v)
  sanitize_value-IsClean null zero depth h = ground arith
  sanitize_value-IsClean (bool b) zero depth h = ground arith
  sanitize_value-IsClean (num n) zero depth h = ground arith
  sanitize_value-IsClean (str s) zero depth h = ground arith
  sanitize_value-IsClean (arr xs) zero depth h = ground arith
  sanitize_value-IsClean (obj fs) zero depth h = ground arith
  sanitize_value-IsClean (other s) zero depth h = ground arith
  sanitize_value-IsClean null (suc left) depth h = ground arith
  sanitize_value-IsClean (bool b) (suc left) depth h = ground arith
  sanitize_value-IsClean (num n) (suc left) depth h = ground arith
  sanitize_value-IsClean (str s) (suc left) depth h =
      ground (arith, length-take_le max_metadata_string_length s)
  sanitize_value-IsClean (other s) (suc left) depth h =
      ground (arith, length-take_le max_metadata_string_length s)
  sanitize_value-IsClean (arr xs) (suc left) depth h =
      ground (arith, sanitize_items-CleanItems xs left max_metadata_keys (depth + 1))
  sanitize_value-IsClean (obj fs) (suc left) depth h =
      ground (arith, sanitize_fields-CleanFields fs left max_metadata_keys (depth + 1))

  sanitize_items-CleanItems :
      (xs : Items) (left n depth : ℕ)
      → left + depth ≡ 5
      → CleanItems left n (sanitize_items n depth xs)
  sanitize_items-CleanItems nil left n depth h = tt
  sanitize_items-CleanItems (cons x xs) left zero depth h = tt
  sanitize_items-CleanItems (cons x xs) left (suc n) depth h =
      (sanitize_value-IsClean x left depth h, sanitize_items-CleanItems xs left n depth h)

  sanitize_fields-CleanFields :
      (fs : Fields) (left n depth : ℕ)
      → left + depth ≡ 5
      → CleanFields left n (sanitize_fields n depth fs)
  sanitize_fields-CleanFields end left n depth h = tt
  sanitize_fields-CleanFields (field k v fs) left zero depth h = tt
  sanitize_fields-CleanFields (field k v fs) left (suc n) depth h =
      elim (Bool-cases (is_sensitive k)) [
        | inl e ↦ rw e (sanitize_fields-CleanFields fs left (suc n) depth h)
        | inr e ↦ rw e (
          e,
          sanitize_value-IsClean v left depth h,
          sanitize_fields-CleanFields fs left n depth h,
        )
      ]

mutual
  unfolding sanitize_value sanitize_items sanitize_fields IsClean CleanItems CleanFields

  sanitize_value_of_clean :
      (v : Json) (left depth : ℕ) → left + depth ≡ 5 → IsClean left v → sanitize_value depth v ≡ v
  sanitize_value_of_clean null zero depth h c = ground arith
  sanitize_value_of_clean (bool b) zero depth h c = ground arith
  sanitize_value_of_clean (num n) zero depth h c = ground arith
  sanitize_value_of_clean (str s) zero depth h c = ground arith
  sanitize_value_of_clean (arr xs) zero depth h c = ground arith
  sanitize_value_of_clean (obj fs) zero depth h c = ground arith
  sanitize_value_of_clean (other s) zero depth h c = ground arith
  sanitize_value_of_clean null (suc left) depth h c = ground arith
  sanitize_value_of_clean (bool b) (suc left) depth h c = ground arith
  sanitize_value_of_clean (num n) (suc left) depth h c = ground arith
  sanitize_value_of_clean (str s) (suc left) depth h c =
      ground (arith, take-eq_of_length_le max_metadata_string_length s c)
  sanitize_value_of_clean (other s) (suc left) depth h c = absurd c
  sanitize_value_of_clean (arr xs) (suc left) depth h c =
      ground (arith, sanitize_items_of_clean xs left max_metadata_keys (depth + 1))
  sanitize_value_of_clean (obj fs) (suc left) depth h c =
      ground (arith, sanitize_fields_of_clean fs left max_metadata_keys (depth + 1))

  sanitize_items_of_clean :
      (xs : Items) (left n depth : ℕ)
      → left + depth ≡ 5
      → CleanItems left n xs
      → sanitize_items n depth xs ≡ xs
  sanitize_items_of_clean nil left n depth h c = refl
  sanitize_items_of_clean (cons x xs) left zero depth h c = absurd c
  sanitize_items_of_clean (cons x xs) left (suc n) depth h c =
      cc (sanitize_value_of_clean x left depth h c.0, sanitize_items_of_clean xs left n depth h c.1)

  sanitize_fields_of_clean :
      (fs : Fields) (left n depth : ℕ)
      → left + depth ≡ 5
      → CleanFields left n fs
      → sanitize_fields n depth fs ≡ fs
  sanitize_fields_of_clean end left n depth h c = refl
  sanitize_fields_of_clean (field k v fs) left zero depth h c = absurd c
  sanitize_fields_of_clean (field k v fs) left (suc n) depth h c = rw c.0 (
      cc (
        sanitize_value_of_clean v left depth h c.1,
        sanitize_fields_of_clean fs left n depth h c.2,
      ))

-- metadata that the audit log may hold
abbrev pub CleanMetadata : Metadata → Type 0
CleanMetadata absent = Unit
CleanMetadata (present fs) = CleanFields 4 max_metadata_keys fs

-- Sanitized metadata has no sensitive key at any depth, at most 50 entries in each list and object,
-- texts of at most 500 units, and at most five levels.
pub sanitize_audit_metadata-CleanMetadata :
    (m : Metadata) → CleanMetadata (sanitize_audit_metadata m)
unfolding sanitize_audit_metadata sanitize_value
sanitize_audit_metadata-CleanMetadata absent = tt
sanitize_audit_metadata-CleanMetadata (present fs) =
    sanitize_fields-CleanFields fs 4 max_metadata_keys 1 (omega arith)
