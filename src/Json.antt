-- ===== src/Json.antt =====
-- The JSON values that the services put into `metadata`.
use room_booking.Base.{ℕ, Bool, Text, text_eq, if◌then◌else◌}

-- `other` is a value that JSON has no form for, such as `undefined`, by its `String(value)`.
mutual
  pub data Json : Type 0 where
    null : Json
    bool : Bool → Json
    num : ℕ → Json
    str : Text → Json
    arr : Items → Json
    obj : Fields → Json
    other : Text → Json

  pub data Items : Type 0 where
    nil : Items
    cons : Json → Items → Items

  pub data Fields : Type 0 where
    end : Fields
    field : Text → Json → Fields → Fields

-- An assignment to one key of an object: in place if the key is there, else at the end.
pub set_field : Text → Json → Fields → Fields
set_field k v end = field k v end
set_field k v (field j w r) = if text_eq j k then field j v r else field j w (set_field k v r)

-- `{ ...a, ...b }`
pub spread : Fields → Fields → Fields
unfolding set_field
spread a end = a
spread a (field k v r) = spread (set_field k v a) r

-- `Object.keys(f).length > 0 ? f : undefined`
pub data Metadata : Type 0 where
  absent : Metadata
  present : Fields → Metadata

abbrev pub non_empty : Fields → Metadata
non_empty end = absent
non_empty f = present f

-- `m ?? {}`
abbrev pub fields_of : Metadata → Fields
fields_of absent = end
fields_of (present f) = f
