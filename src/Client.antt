-- ===== src/Client.antt =====
-- The clients of the control socket that the tests hold: scripts/smoke_api_events.py,
-- scripts/smoke_api_socket.py and scripts/smoke_api_geometry.py. Here are the values that
-- `json.loads` gives, what the tests ask of them, and how a piece of a test ends.
pub mod Line
pub mod Events
pub mod Delivers
pub mod Collects
pub mod Calls
pub mod Unwraps
pub mod Ends
use hexe.Prelude.{
  ℕ, List, [], ◌∷◌, Bool, true, false, Option, none, some, Text, text_eq, if◌then◌else◌, ◌==◌, not,
}

-- A number that is a whole one from 0 on is held by its value, any other (which is not zero) by
-- its text. `None` is the `null` of JSON.
mutual
  pub data Json : Type 0 where
    null : Json
    boolean : Bool → Json
    number : ℕ → Json
    other_number : Text → Json
    text : Text → Json
    array : Items → Json
    object : Members → Json

  pub data Items : Type 0 where
    no_item : Items
    item : Json → Items → Items

  pub data Members : Type 0 where
    no_member : Members
    member : Text → Json → Members → Members

pub data Exception : Type 0 where
  timed_out os_error struct_error value_error attribute_error key_error index_error type_error :
      Exception

-- How a function of a test ends: it returns, it raises an exception, or it calls `fail`, which
-- ends the test. `unfinished` means that the fuel ran out.
pub data Outcome (A : Type 0) : Type 0 where
  returns : A → Outcome A
  raised : Exception → Outcome A
  failed : Outcome A
  unfinished : Outcome A

abbrev pub then_do : {A : Type 0} {B : Type 0} → Outcome A → (A → Outcome B) → Outcome B
then_do (returns a) k = k a
then_do (raised e) k = raised e
then_do failed k = failed
then_do unfinished k = unfinished

-- `d[key]`
unfoldable pub find : Text → Members → Option Json
find key no_member = none
find key (member k v ms) = if text_eq k key then some v else find key ms

abbrev or_null : Option Json → Json
or_null none = null
or_null (some v) = v

-- `d.get(key)`
unfoldable pub get : Text → Members → Json
unfolding find
get key ms = or_null (find key ms)

-- `bool(v)`
unfoldable pub truthy : Json → Bool
truthy null = false
truthy (boolean b) = b
truthy (number n) = not (n == 0)
truthy (other_number s) = true
truthy (text s) = elim s [ [] ↦ false | c ∷ cs ↦ true ]
truthy (array xs) = elim xs [ no_item ↦ false | item x ys ↦ true ]
truthy (object ms) = elim ms [ no_member ↦ false | member k v ns ↦ true ]
