-- ===== src/Base/Json.antt =====
-- The values that `JSON.parse` gives, and `undefined`, as the program reads them.
use open_beanie.Base.Tests.{Text, if◌then◌else◌, text_eq}
use open_beanie.Base.Lists.{codes}
use open_beanie.Base.Strings.{to_string}
use Prim.Native.Nat.{ℕ, zero, suc}
use mathlib.Core.Path.{◌≡◌, refl, ap}
use mathlib.Core.Bool.{Bool, true, false}
use mathlib.Core.Option.{Option, none, some}
use mathlib.Core.List.{List, [], ◌∷◌, ◌++◌}

-- A natural number that a double holds exactly is `nat`; any other number is its text, with
-- whether it is finite.
mutual
  pub data Value : Type 0 where
    undefined : Value
    null : Value
    bool : Bool → Value
    nat : ℕ → Value
    number : Text → Bool → Value
    str : Text → Value
    arr : Items → Value
    obj : Fields → Value

  pub data Items : Type 0 where
    nil : Items
    cons : Value → Items → Items

  pub data Fields : Type 0 where
    end : Fields
    field : Text → Value → Fields → Fields

abbrev pub of_list : List Value → Items
of_list [] = nil
of_list (v ∷ vs) = cons v (of_list vs)

abbrev pub to_list : Items → List Value
to_list nil = []
to_list (cons v vs) = v ∷ to_list vs

-- A field that is not there is `undefined`.
unfoldable pub field_of : Text → Fields → Value
unfolding text_eq
field_of k end = undefined
field_of k (field j v fs) = if text_eq k j then v else field_of k fs

-- `v?.k`: a value that is no object has none of the fields that the program asks for.
unfoldable pub prop : Text → Value → Value
unfolding field_of
prop k (obj fs) = field_of k fs
prop k _ = undefined

-- `Boolean(v)`
unfoldable pub truthy : Value → Bool
truthy undefined = false
truthy null = false
truthy (bool b) = b
truthy (nat zero) = false
truthy (nat (suc _)) = true
truthy (number _ _) = true
truthy (str []) = false
truthy (str (_ ∷ _)) = true
truthy (arr _) = true
truthy (obj _) = true

abbrev pub item_text : Value → Text → Text
item_text undefined t = []
item_text null t = []
item_text _ t = t

-- `String(v)`; an array joins its items, and an item that is null or undefined is empty.
unfoldable mutual
  unfolding to_string

  pub text_of : Value → Text
  text_of undefined = codes "undefined"
  text_of null = codes "null"
  text_of (bool true) = codes "true"
  text_of (bool false) = codes "false"
  text_of (nat n) = to_string 10 n
  text_of (number t _) = t
  text_of (str t) = t
  text_of (arr nil) = []
  text_of (arr (cons v vs)) = item_text v (text_of v) ++ more_text vs
  text_of (obj _) = codes "[object Object]"

  pub more_text : Items → Text
  more_text nil = []
  more_text (cons v vs) = b',' ∷ (item_text v (text_of v) ++ more_text vs)

abbrev pub as_string : Value → Option Text
as_string (str t) = some t
as_string _ = none

-- `Array.isArray`
abbrev pub as_array : Value → Option (List Value)
as_array (arr vs) = some (to_list vs)
as_array _ = none

pub to_list-of_list : (vs : List Value) → to_list (of_list vs) ≡ vs
to_list-of_list [] = refl
to_list-of_list (v ∷ vs) = ap (v ∷◌) (to_list-of_list vs)
