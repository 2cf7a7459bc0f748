-- ===== src/RefPath.antt =====
-- Reference paths (schema/path.rs): where a path leads inside a row.
pub mod Selects
pub mod Walk
pub mod Occurrences
pub mod Parser
mod Examples
use reldir.Base.{
  ℕ, zero, suc, ◌/◌, ◌%◌, ◌+◌, ltb, Bool, true, false, List, [], ◌∷◌, ◌++◌, Option, none, some,
  if◌then◌else◌,
}
use reldir.Store.Corruption.{Bytes}
use reldir.Json.{
  Value, Items, Members, null, bool, number, string, array, object, nil, cons, end, member,
  get_member, value_eq,
}
use reldir.Pointer.{extend, escape_pointer}

pub data Step : Type 0 where
  member_step : Bytes → Step
  each_step : Step
  where_step : Bytes → Value → Step

pub record Occurrence : Type 0 where
  pub pointer : Bytes
  pub value : Value
  pub element : Option Bytes

-- The decimal digits of a number, the most significant first; `rounds` bounds how many there are.
unfoldable pub decimal_digits : ℕ → ℕ → Bytes → Bytes
decimal_digits zero n digits = digits
decimal_digits (suc rounds) n digits =
    let here = (n % 10 + b'0') ∷ digits in
    let more = decimal_digits rounds (n / 10) here in if ltb n 10 then here else more

-- `{index}` of a format
unfoldable pub decimal : ℕ → Bytes
unfolding decimal_digits
decimal n = decimal_digits (suc n) n []

-- `format!("{pointer}/{index}")`
unfoldable pub at_index : Bytes → ℕ → Bytes
at_index pointer index = pointer ++ b'/' ∷ decimal index

-- `Value::is_null`
unfoldable pub is_null : Value → Bool
is_null null = true
is_null _ = false

-- `value.as_object().and_then(|object| object.get(name))`
unfoldable pub member_of : Bytes → Value → Option Value
member_of name (object ms) = get_member name ms
member_of name _ = none

-- `value.as_array()`
unfoldable pub items_of : Value → Option Items
items_of (array items) = some items
items_of _ = none

-- The selection of `[?member=equals]`.
unfoldable pub selected : Bytes → Value → Value → Bool
selected name equals item = elim (member_of name item) [
  | none ↦ false
  | some candidate ↦ value_eq candidate equals
]

-- Both loops over the elements of an array: those that `select` takes go on to `walk`.
unfoldable pub walk_items :
    (Value → Bool)
    → (Value → Bytes → Option Bytes → List Occurrence)
    → Bytes
    → ℕ
    → Items
    → List Occurrence
walk_items select walk pointer index nil = []
walk_items select walk pointer index (cons item items) =
    let rest = walk_items select walk pointer (suc index) items in
    let at = at_index pointer index in if select item then walk item at (some at) ++ rest else rest

abbrev pub always : Value → Bool
always v = true

-- The `match` of `walk` on a step, where `walk` takes the steps that are left.
unfoldable pub walk_step :
    Step
    → (Value → Bytes → Option Bytes → List Occurrence)
    → Value
    → Bytes
    → Option Bytes
    → List Occurrence
walk_step (member_step name) walk value pointer element = elim (member_of name value) [
  | none ↦ []
  | some child ↦ walk child (extend pointer name) element
]
walk_step each_step walk value pointer element = elim (items_of value) [
  | none ↦ []
  | some items ↦ walk_items always walk pointer 0 items
]
walk_step (where_step name equals) walk value pointer element = elim (items_of value) [
  | none ↦ []
  | some items ↦ walk_items (selected name equals) walk pointer 0 items
]

-- What `walk` pushes to `out`.
unfoldable pub walk : List Step → Value → Bytes → Option Bytes → List Occurrence
walk [] value pointer element =
    if is_null value
    then []
    else record { pointer = pointer; value = value; element = element } ∷ []
walk (step ∷ rest) value pointer element =
    let found = walk_step step (walk rest) value pointer element in
    if is_null value then [] else found

-- `RefPath::occurrences`
unfoldable pub occurrences : List Step → Members → List Occurrence
occurrences (member_step first ∷ rest) row = elim (get_member first row) [
  | none ↦ []
  | some value ↦ walk rest value (extend [] first) none
]
occurrences _ row = []

-- `RefPath::iterates`
unfoldable pub iterates : List Step → Bool
iterates [] = false
iterates (member_step name ∷ steps) = iterates steps
iterates (_ ∷ steps) = true

-- `RefPath::from_steps`
unfoldable pub from_steps : List Step → Option (List Step)
from_steps [] = none
from_steps (member_step name ∷ steps) = some (member_step name ∷ steps)
from_steps (each_step ∷ steps) = none
from_steps (where_step name equals ∷ steps) = none

-- `RefPath::column`; nothing stands for the panic.
unfoldable pub column : List Step → Option Bytes
column [] = none
column (member_step name ∷ steps) = some name
column (each_step ∷ steps) = none
column (where_step name equals ∷ steps) = none
