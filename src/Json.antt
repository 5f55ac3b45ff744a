-- ===== src/Json.antt =====
-- JSON documents, as `to_json` builds them and `json.dumps` prints them.
use frenetic.Base.{ℕ, String, Bool, List, [], ◌∷◌, Option, none, some, if◌then◌else◌}
use frenetic.Base.Int.{ℤ, pos}
use frenetic.Base.Text.{Text, codes}
use text.Mathlib.Text.{◌==◌}

mutual
  pub data Json : Type 0 where
    null : Json
    bool : Bool → Json
    int : ℤ → Json
    str : Text → Json
    arr : Items → Json
    obj : Fields → Json

  pub data Items : Type 0 where
    nil : Items
    cons : Json → Items → Items

  pub data Fields : Type 0 where
    end : Fields
    field : String → Json → Fields → Fields

-- A string constant, and a number.
abbrev pub tag : String → Json
tag s = str (codes s)

abbrev pub nat : ℕ → Json
nat n = int (pos n)

abbrev pub items : List Json → Items
items [] = nil
items (j ∷ js) = cons j (items js)

-- An object of one, two, three or four fields, in the order of the source.
abbrev pub obj1 : String → Json → Json
obj1 k v = obj (field k v end)

abbrev pub obj2 : String → Json → String → Json → Json
obj2 k v l w = obj (field k v (field l w end))

abbrev pub obj3 : String → Json → String → Json → String → Json → Json
obj3 k v l w m x = obj (field k v (field l w (field m x end)))

abbrev pub find : String → Fields → Option Json
find k end = none
find k (field j v fs) = if j == k then some v else find k fs

-- The value of a key of an object; `none` where there is none, or where it is no object.
abbrev pub member : String → Json → Option Json
member k (obj fs) = find k fs
member k _ = none
