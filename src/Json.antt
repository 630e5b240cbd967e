-- ===== src/Json.antt =====
-- The values of the `json` module, with the mapping operations that the program uses. A Python
-- `bool` is an `int` too, so the two constructors keep the program's `isinstance` tests apart.
use vouchspec.Base.{
  ℕ, String, Bool, true, false, ◌&&◌, Option, none, some, List, [], ◌∷◌, leb, if◌then◌else◌, ◌==◌,
}
use vouchspec.Base.Lists.{all, contains}
use vouchspec.Base.Int.{ℤ, pos}

mutual
  pub data Json : Type 0 where
    null : Json
    bool : Bool → Json
    int : ℤ → Json
    -- a float, by its text
    real : String → Json
    text : String → Json
    array : Items → Json
    object : Fields → Json

  pub data Items : Type 0 where
    nil : Items
    cons : Json → Items → Items

  -- The entries of a `dict`, whose keys are distinct.
  pub data Fields : Type 0 where
    end : Fields
    field : String → Json → Fields → Fields

-- `value.get(key)`; `none` stands for an absent key.
abbrev pub get : String → Fields → Option Json
get k end = none
get k (field j v fs) = if j == k then some v else get k fs

abbrev pub keys : Fields → List String
keys end = []
keys (field k v fs) = k ∷ keys fs

-- `value[key] = v`
abbrev pub set : String → Json → Fields → Fields
set k v end = field k v end
set k v (field j w fs) = if j == k then field k v fs else field j w (set k v fs)

-- `set(value) == names`
abbrev pub has_exactly : List String → Fields → Bool
has_exactly names fs =
    all (λ k. contains k names) (keys fs) && all (λ k. contains k (keys fs)) names

abbrev pub items : Items → List Json
items nil = []
items (cons j js) = j ∷ items js

abbrev pub as_object : Json → Option Fields
as_object (object fs) = some fs
as_object _ = none

abbrev pub as_items : Json → Option (List Json)
as_items (array xs) = some (items xs)
as_items _ = none

-- `isinstance(value, str)`
abbrev pub as_text : Json → Option String
as_text (text s) = some s
as_text _ = none

-- An `int` that is no `bool`, with `low <= value <= high`.
abbrev pub as_bounded : ℕ → ℕ → Json → Option ℕ
as_bounded low high (int (pos n)) = if leb low n && leb n high then some n else none
as_bounded low high _ = none

-- `value == s` for a text `s`.
abbrev pub is_text : String → Json → Bool
is_text s (text t) = t == s
is_text s _ = false

-- A `list` or a `dict` in a set's membership test is a `TypeError`.
abbrev pub is_hashable : Json → Bool
is_hashable (array xs) = false
is_hashable (object fs) = false
is_hashable _ = true

abbrev pub at_text : String → Fields → Option String
at_text k fs = elim (get k fs) [ none ↦ none | some j ↦ as_text j ]

abbrev pub at_is_text : String → String → Fields → Bool
at_is_text k s fs = elim (get k fs) [ none ↦ false | some j ↦ is_text s j ]

abbrev pub at_bounded : String → ℕ → ℕ → Fields → Option ℕ
at_bounded k low high fs = elim (get k fs) [ none ↦ none | some j ↦ as_bounded low high j ]

-- `d == {key: s, …}` against a mapping of two texts.
abbrev pub is_text_pair : String → String → String → String → Json → Bool
is_text_pair k s j t (object fs) =
    has_exactly (k ∷ j ∷ []) fs && at_is_text k s fs && at_is_text j t fs
is_text_pair k s j t _ = false
