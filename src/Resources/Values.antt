-- ===== src/Resources/Values.antt =====
-- The JSON values that the resources of spooled/resources send: `any`, `map[string]any` and what the
-- `json` tags of a struct make of its fields.
use spooled_sdk_go.Common.{ℕ, Bool, Option, none, some, ℤ, Text, List, [], ◌∷◌}

-- A Go value behind `any`. A `float64` is its 64 bits, and `other` is a value that no JSON text decodes to.
mutual
  pub data Json : Type 0 where
    null : Json
    boolean : Bool → Json
    integer : ℤ → Json
    float : ℕ → Json
    string : Text → Json
    array : Elements → Json
    object : Fields → Json
    other : ℕ → Json

  pub data Elements : Type 0 where
    no_elements : Elements
    element : Json → Elements → Elements

  pub data Fields : Type 0 where
    no_fields : Fields
    field : Text → Json → Fields → Fields

-- `map[string]any` and a slice; `none` is nil. A `time.Time` is its nanoseconds since 1970.
abbrev pub JsonObject : Type 0
JsonObject = Option Fields

abbrev pub Slice : Type 0 → Type 0
Slice A = Option (List A)

abbrev pub Time : Type 0
Time = ℤ

abbrev pub Float64 : Type 0
Float64 = ℕ

abbrev pub array_of : {A : Type 0} → (A → Json) → List A → Elements
array_of f [] = no_elements
array_of f (x ∷ xs) = element (f x) (array_of f xs)

-- A slice, a map and a pointer as JSON.
abbrev pub slice_json : {A : Type 0} → (A → Json) → Slice A → Json
slice_json f none = null
slice_json f (some xs) = array (array_of f xs)

abbrev pub object_json : JsonObject → Json
object_json none = null
object_json (some fs) = object fs

-- The field of a pointer, a string, a slice and a map with `omitempty`.
abbrev pub omit_nil : {A : Type 0} → Text → (A → Json) → Option A → Fields → Fields
omit_nil k f none fs = fs
omit_nil k f (some x) fs = field k (f x) fs

abbrev pub omit_blank : Text → Text → Fields → Fields
omit_blank k [] fs = fs
omit_blank k (b ∷ t) fs = field k (string (b ∷ t)) fs

abbrev pub omit_slice : {A : Type 0} → Text → (A → Json) → Slice A → Fields → Fields
omit_slice k f none fs = fs
omit_slice k f (some []) fs = fs
omit_slice k f (some (x ∷ xs)) fs = field k (array (array_of f (x ∷ xs))) fs

abbrev pub omit_object : Text → JsonObject → Fields → Fields
omit_object k none fs = fs
omit_object k (some no_fields) fs = fs
omit_object k (some (field j v gs)) fs = field k (object (field j v gs)) fs
