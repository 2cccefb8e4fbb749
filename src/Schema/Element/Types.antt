-- ===== src/Schema/Element/Types.antt =====
-- pkg/schema/leaf.go: `toSchemaType`.
use sdcio_schema_server.Base.{
  Bool, Option, none, some, List, [], ◌++◌, Str, codes, str_eq, ◌==◌, if◌then◌else◌,
}
use sdcio_schema_server.Sdcpb.{LeafType, leaf_type, UnionTypes}
use sdcio_schema_server.Yang.{TypeAttrs, YangType, yang_type, YangTypes}

-- `kind` holds the name of the kind.
abbrev pub is_kind : Str → TypeAttrs → Bool
is_kind k t = t.kind == k

abbrev names_of : Option (List Str) → List Str
names_of none = []
names_of (some ns) = ns

unfoldable pub values_of : TypeAttrs → List Str
values_of t = names_of t.enum ++ (if is_kind (codes "identityref") t then t.identity_base else [])

unfoldable mutual
  pub to_schema_type : YangType → LeafType
  to_schema_type (yang_type t ts) =
      leaf_type t.kind t.range t.length t.units t.name t.path (values_of t) t.pattern
        (if is_kind (codes "union") t then to_schema_types ts else UnionTypes.nil)

  pub to_schema_types : YangTypes → UnionTypes
  to_schema_types YangTypes.nil = UnionTypes.nil
  to_schema_types (YangTypes.cons u us) = UnionTypes.cons (to_schema_type u) (to_schema_types us)
