-- ===== src/Client/List.antt =====
-- client/cmd/schema_list.go: the table of schemas. `sort.Slice` is a parameter, with what its
-- documentation says.
pub mod Order
mod Tests
use sdcio_schema_server.Base.{Bool, not, List, [], ◌∷◌, Str, str_eq, ◌==◌, str_le, if◌then◌else◌}
use sdcio_schema_server.Sdcpb.{SchemaName}

-- `s < t` of two Go strings.
abbrev pub str_less : Str → Str → Bool
str_less s t = not (str_le t s)

-- A comparison by one column, which goes on to the next where the two are equal.
abbrev pub less_then : Str → Str → Bool → Bool
less_then s t rest = if s == t then rest else str_less s t

-- The comparison of `sort.Slice`.
unfoldable pub row_less : SchemaName → SchemaName → Bool
unfolding str_le
row_less a b = less_then a.name b.name (less_then a.vendor b.vendor (str_less a.version b.version))

-- The rows of the table, for the schemas that the server lists.
unfoldable pub table :
    ((SchemaName → SchemaName → Bool) → List SchemaName → List SchemaName)
    → List SchemaName
    → List SchemaName
unfolding row_less
table sort_slice rows = sort_slice row_less rows
