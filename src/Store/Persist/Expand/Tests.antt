-- ===== src/Store/Persist/Expand/Tests.antt =====
-- An expansion in a database with one list, and the theorems at it.
use sdcio_schema_server.Base.{
  ◌≡◌, refl, false, List, [], ◌∷◌, ◌++◌, Str, str_eq, codes, is_nil, index_of, lookup, All, Result,
  ok, if◌then◌else◌, some,
}
use sdcio_schema_server.Sdcpb.{
  SdcPath, config, container, ContainerSchema, ExpandPathResponse, PathElem,
}
use sdcio_schema_server.Yang.{root_name}
use sdcio_schema_server.Store.{request_key}
use sdcio_schema_server.Store.Badger.{Libs}
use sdcio_schema_server.Store.Keys.{build_entry_key, build_schema_key}
use sdcio_schema_server.Store.Sample.{libs, two_keys, srl_name}
use sdcio_schema_server.Store.Persist.Reads.{get_schema}
use sdcio_schema_server.Store.Persist.Expand.{expand_path_at}
use sdcio_schema_server.Store.Persist.Uncached.{uncached}
use sdcio_schema_server.Store.Persist.Expand.Starred.{Lists, expand_path_at_starred}

-- The root has one module; the list has two keys, and fields of the same names.
abbrev pub list_of : Str → ContainerSchema
list_of b = record two_keys {
  children = if is_nil b then codes "if" ∷ [] else [];
  fields = two_keys.keys;
}

abbrev pub one_list : Libs
one_list = record libs { unmarshal = λ b. ok (container (list_of b)) }

abbrev entry_under : Result Str → Str → List (Str × Str)
entry_under (ok k) v = (k, v) ∷ []
entry_under _ v = []

abbrev pub list_db : List (Str × Str)
list_db =
    (build_schema_key (request_key srl_name), codes "srl.yang")
    ∷ (entry_under (build_entry_key (request_key srl_name) (root_name ∷ [])) []
        ++ entry_under (build_entry_key (request_key srl_name) (codes "if" ∷ (codes "entry" ∷ [])))
            (codes "entry"))

abbrev pub entry_elem : PathElem
entry_elem = record { name = codes "entry"; key = (codes "name", codes "e1") ∷ [] }

-- /entry[name=e1]
abbrev entry_path : SdcPath
entry_path = record { origin = []; target = []; elem = entry_elem ∷ [] }

entry_read :
    (get_schema one_list (uncached one_list false list_db) srl_name entry_path false).0
    ≡ ok (container (list_of (codes "entry")))
unfolding get_schema index_of lookup build_schema_key
entry_read = refl

abbrev starred_elem : PathElem
starred_elem = record {
  name = codes "entry";
  key = (codes "name", codes "*") ∷ ((codes "type", codes "*") ∷ []);
}

abbrev below_entry : Str → SdcPath
below_entry n = record entry_path { elem = starred_elem ∷ (record { name = n; key = [] } ∷ []) }

abbrev entry_expanded : ExpandPathResponse
entry_expanded = record {
  path = below_entry (codes "name") ∷ (below_entry (codes "type") ∷ []);
  xpath = [];
}

expanded :
    (expand_path_at one_list 2 srl_name config false entry_path (uncached one_list false list_db)).0
    ≡ ok entry_expanded
unfolding expand_path_at index_of lookup build_schema_key
expanded = refl

expand_path_at_starred_example :
    (qe : PathElem) × (qe.name ≡ codes "entry")
    × All (λ k. lookup k.name qe.key ≡ some (codes "*")) two_keys.keys
    × Lists (qe ∷ []) entry_expanded
expand_path_at_starred_example =
    expand_path_at_starred one_list srl_name config false 2 (uncached one_list false list_db)
      entry_path [] entry_elem (list_of (codes "entry")) entry_expanded refl entry_read expanded
