-- ===== src/Yang.antt =====
-- The entries of the goyang library, as far as pkg/schema reads them. What the program reads through
-- a method of goyang is a field that holds the method's result (`e.Namespace().Name`,
-- `e.Mandatory.Value()`, `e.SingleDefaultValue()`, `yt.Range.String()`); the methods that classify
-- an entry are the parameter `Goyang`. `Parent` pointers are the reverse of `Dir`: a `Node` is an
-- entry with its ancestors, the parent first. A `Dir` holds no nil entry, and its order is one in
-- which the runtime may walk the map.
use sdcio_schema_server.Base.{
  ℕ, Bool, true, false, Option, none, some, List, [], ◌∷◌, Str, codes, str_eq, Dict, ◌==◌,
  if◌then◌else◌,
}

pub data TriState : Type 0 where
  ts_unset ts_true ts_false : TriState

-- A value of the `Extra` map: a `*yang.Must` with its error message, a `*yang.Value`, or another.
pub data Extra : Type 0 where
  must : (name : Str) → (error_message : Option Str) → Extra
  value : (name : Str) → Extra
  other : Extra

pub record TypeAttrs : Type 0 where
  pub kind : Str
  pub range : Str
  pub length : Str
  pub enum : Option (List Str)
  pub units : Str
  pub name : Str
  pub path : Str
  pub pattern : List Str
  pub identity_base : List Str

mutual
  pub data YangType : Type 0 where
    yang_type : TypeAttrs → YangTypes → YangType

  pub data YangTypes : Type 0 where
    nil : YangTypes
    cons : YangType → YangTypes → YangTypes

pub record ListAttr : Type 0 where
  pub max_elements : ℕ
  pub min_elements : ℕ
  pub ordered_by : Option Str

pub record Attrs : Type 0 where
  pub name : Str
  pub description : Str
  pub namespace : Str
  pub prefix : Option Str
  pub config : TriState
  pub key : Str
  pub list_attr : Option ListAttr
  pub mandatory : Bool
  pub default : Option Str
  pub units : Str
  pub type : YangType
  pub extra : Dict Str (List Extra)

mutual
  -- `bare` has a nil `Dir`.
  pub data Entry : Type 0 where
    bare : Attrs → Entry
    node : Attrs → Dir → Entry

  pub data Dir : Type 0 where
    end : Dir
    child : (name : Str) → Entry → Dir → Dir

abbrev pub attrs : Entry → Attrs
attrs (bare a) = a
attrs (node a d) = a

abbrev pub name : Entry → Str
name e = (attrs e).name

abbrev pub dir : Entry → Dir
dir (bare a) = end
dir (node a d) = d

abbrev pub dir_is_nil : Entry → Bool
dir_is_nil (bare a) = true
dir_is_nil (node a d) = false

-- `ee, ok := d[k]`
unfoldable pub find : Str → Dir → Option Entry
find k end = none
find k (child j e d) = if j == k then some e else find k d

-- The entries of a directory, in the order of the walk.
abbrev pub entries : Dir → List Entry
entries end = []
entries (child k e d) = e ∷ entries d

pub record Node : Type 0 where
  pub here : Entry
  pub above : List Entry

-- The entries below a node, with their `Parent`.
abbrev pub below : Node → Entry → Node
below n e = record { here = e; above = n.here ∷ n.above }

-- The methods `IsLeaf`, `IsLeafList`, `IsList`, `IsContainer`, `IsChoice`, `IsCase`, `IsDir`.
pub record Goyang : Type 0 where
  pub is_leaf : Entry → Bool
  pub is_leaf_list : Entry → Bool
  pub is_list : Entry → Bool
  pub is_container : Entry → Bool
  pub is_choice : Entry → Bool
  pub is_case : Entry → Bool
  pub is_dir : Entry → Bool

abbrev pub root_name : Str
root_name = codes "__root__"
