-- ===== src/Store/Keys.antt =====
-- pkg/store/persiststore/persiststore.go: the keys of the database. A key is the list of its code
-- points behind the byte of its kind; all the separators are ASCII.
pub mod Injective
pub mod Paths
use mathlib.Core.List.{reverse}
use sdcio_schema_server.Base.{
  ℕ, ◌≡◌, Bool, true, false, Option, none, some, List, [], ◌∷◌, ◌++◌, Str, codes, str_eq, ◌==◌,
  cut_at, not, ◌&&◌, Result, ok, err, panic, ◌>>=◌, if◌then◌else◌,
}
use sdcio_schema_server.Sdcpb.{SchemaName}
use sdcio_schema_server.Yang.{Entry, name, Node, Goyang, root_name}
use sdcio_schema_server.Schema.Children.{is_hidden}
use sdcio_schema_server.Store.{SchemaKey}

abbrev pub schemas_prefix : ℕ
schemas_prefix = 1

abbrev pub schema_objects_prefix : ℕ
schema_objects_prefix = 2

abbrev pub at_sign : ℕ
at_sign = b'@'

unfoldable pub schema_key_string : SchemaKey → Str
schema_key_string k = k.name ++ at_sign ∷ (k.vendor ++ at_sign ∷ k.version)

unfoldable pub build_schema_key : SchemaKey → Str
unfolding schema_key_string
build_schema_key k = schemas_prefix ∷ schema_key_string k

abbrev pub colons : Str
colons = codes ":::"

unfoldable pub slashed : List Str → Str
slashed [] = []
slashed (p ∷ ps) = b'/' ∷ (p ++ slashed ps)

-- The names behind the first.
abbrev pub tail_text : List Str → Str
tail_text [] = []
tail_text (p ∷ ps) = colons ++ slashed (p ∷ ps)

-- `pes[0]` is read whatever the length.
unfoldable pub build_entry_key : SchemaKey → List Str → Result Str
unfolding schema_key_string slashed
build_entry_key k [] = panic
build_entry_key k (p ∷ ps) =
    ok (schema_objects_prefix ∷ (schema_key_string k ++ (colons ++ (p ++ tail_text ps))))

-- The parts of `bytes.SplitN(key[1:], "@", 3)`, if there are three.
unfoldable pub parse_schema_key : Str → Option SchemaName
unfolding cut_at
parse_schema_key [] = none
parse_schema_key (c ∷ s) = elim (cut_at at_sign s) [
  | none ↦ none
  | some p ↦ elim (cut_at at_sign p.1) [
    | none ↦ none
    | some q ↦ some (record { name = p.0; vendor = q.0; version = q.1 })
  ]
]

abbrev pub add_name : Str → Result (List Str) → Result (List Str)
add_name n (ok ns) = ok (n ∷ ns)
add_name n (err e) = err e
add_name n panic = panic

-- The loops of `getEntryPath`: the names of the ancestors, nearest first. With `skipping` the inner
-- loop has just passed a choice or a case: it reads the next `Parent` with no test, and panics at
-- nil.
unfoldable pub path_above : Goyang → Bool → List Entry → Result (List Str)
path_above y skipping [] = if skipping then panic else ok []
path_above y skipping (p ∷ ps) =
    let hidden = path_above y true ps in
    let more = add_name (name p) (path_above y false ps) in
    if not skipping && (name p == root_name) then ok [] else if is_hidden y p then hidden else more

unfoldable pub get_entry_path : Goyang → Node → Result (List Str)
unfolding path_above
get_entry_path y n = path_above y false n.above >>= λ up. ok (reverse (name n.here ∷ up))
