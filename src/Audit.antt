-- ===== src/Audit.antt =====
-- `sanitizeAuditMetadata` of api/src/audit/audit.service.ts.
pub mod Sanitized
use room_booking.Base.{
  ℕ, zero, suc, ◌+◌, List, [], ◌∷◌, Bool, true, false, ◌&&◌, ◌||◌, leb, ltb, ◌==◌, take, Text,
  codes, text_eq, if◌then◌else◌,
}
use room_booking.Json.{
  Json, null, bool, num, str, arr, obj, other, Items, nil, cons, Fields, end, field, Metadata,
  absent, present,
}

abbrev pub max_metadata_depth : ℕ
max_metadata_depth = 4

abbrev pub max_metadata_keys : ℕ
max_metadata_keys = 50

abbrev pub max_metadata_string_length : ℕ
max_metadata_string_length = 500

-- `SENSITIVE_METADATA_KEYS`
sensitive_metadata_keys : List Text
sensitive_metadata_keys =
    codes "authorization"
    ∷ codes "cookie"
    ∷ codes "setcookie"
    ∷ codes "password"
    ∷ codes "secret"
    ∷ codes "apikey"
    ∷ codes "accesstoken"
    ∷ codes "refreshtoken"
    ∷ codes "idtoken"
    ∷ codes "qrtoken"
    ∷ codes "qrtokenhash"
    ∷ codes "devicekey"
    ∷ codes "devicekeyhash"
    ∷ codes "pairingcode"
    ∷ codes "codehash"
    ∷ codes "linechannelaccesstoken"
    ∷ codes "linechannelsecret"
    ∷ codes "stripewebhooksecret"
    ∷ []

-- Lower case, as far as it gives letters of `[a-z]`: besides `A` to `Z` these come from the Kelvin
-- sign and from the dotted capital I.
abbrev lower : ℕ → ℕ
lower c =
    if leb b'A' c && leb c b'Z'
    then c + 32
    else if c == 0x212a
    then b'k'
    else if c == 0x130
    then b'i'
    else c

abbrev is_alphanumeric : ℕ → Bool
is_alphanumeric c = leb b'a' c && leb c b'z' || leb b'0' c && leb c b'9'

normalized_key : Text → Text
normalized_key [] = []
normalized_key (c ∷ s) =
    let rest = normalized_key s in if is_alphanumeric (lower c) then lower c ∷ rest else rest

-- `Set.has`
member : Text → List Text → Bool
member t [] = false
member t (s ∷ ss) = text_eq s t || member t ss

pub is_sensitive : Text → Bool
unfolding sensitive_metadata_keys normalized_key member
is_sensitive key = member (normalized_key key) sensitive_metadata_keys

abbrev pub truncated : Json
truncated = str (codes "[truncated]")

-- `n` counts what `slice(0, MAX_METADATA_KEYS)` still lets through, after the filter of the keys.
mutual
  pub sanitize_value : ℕ → Json → Json
  sanitize_value depth null = if ltb max_metadata_depth depth then truncated else null
  sanitize_value depth (bool b) = if ltb max_metadata_depth depth then truncated else bool b
  sanitize_value depth (num n) = if ltb max_metadata_depth depth then truncated else num n
  sanitize_value depth (str s) =
      if ltb max_metadata_depth depth then truncated else str (take max_metadata_string_length s)
  sanitize_value depth (other s) =
      if ltb max_metadata_depth depth then truncated else str (take max_metadata_string_length s)
  sanitize_value depth (arr xs) =
      let items = sanitize_items max_metadata_keys (depth + 1) xs in
      if ltb max_metadata_depth depth then truncated else arr items
  sanitize_value depth (obj fs) =
      let fields = sanitize_fields max_metadata_keys (depth + 1) fs in
      if ltb max_metadata_depth depth then truncated else obj fields

  pub sanitize_items : ℕ → ℕ → Items → Items
  sanitize_items n depth nil = nil
  sanitize_items zero depth (cons x xs) = nil
  sanitize_items (suc n) depth (cons x xs) =
      cons (sanitize_value depth x) (sanitize_items n depth xs)

  pub sanitize_fields : ℕ → ℕ → Fields → Fields
  sanitize_fields n depth end = end
  sanitize_fields zero depth (field k v fs) = end
  sanitize_fields (suc n) depth (field k v fs) =
      let rest = sanitize_fields n depth fs in
      let kept = field k (sanitize_value depth v) rest in
      let dropped = sanitize_fields (suc n) depth fs in if is_sensitive k then dropped else kept

-- `sanitizeValue` of an object at depth 0 is an object.
abbrev fields_of_value : Json → Fields
fields_of_value (obj fs) = fs
fields_of_value _ = end

pub sanitize_audit_metadata : Metadata → Metadata
sanitize_audit_metadata absent = absent
sanitize_audit_metadata (present m) = present (fields_of_value (sanitize_value 0 (obj m)))
