-- ===== src/Store/Persist/Elements/Tests.antt =====
-- The elements of a path of two, the first of which, a module, is not in the database.
use sdcio_schema_server.Base.{
  ◌≡◌, refl, true, false, none, some, List, [], ◌∷◌, codes, ok, index_of, lookup, str_eq,
}
use sdcio_schema_server.Sdcpb.{container, PathElem}
use sdcio_schema_server.Store.{request_key}
use sdcio_schema_server.Store.Keys.{build_schema_key}
use sdcio_schema_server.Store.Sample.{srl_name}
use sdcio_schema_server.Store.Persist.{has_schema}
use sdcio_schema_server.Store.Persist.Reads.{get_schema_at}
use sdcio_schema_server.Store.Persist.Uncached.{uncached}
use sdcio_schema_server.Store.Persist.Expand.Tests.{one_list, list_db, list_of, entry_elem}
use sdcio_schema_server.Store.Persist.Elements.{get_schema_elements}
use sdcio_schema_server.Store.Persist.Elements.Prefixes.{
  prefix_messages, NoPanics, get_schema_elements_prefixes,
}

abbrev if_entry : List PathElem
if_entry = record { name = codes "if"; key = [] } ∷ (entry_elem ∷ [])

entry_found :
    (get_schema_at one_list
      (uncached one_list false list_db)
      (record { origin = []; target = []; elem = if_entry })
      false
      (request_key srl_name)).0
    ≡ ok (container (list_of (codes "entry")))
unfolding get_schema_at index_of lookup build_schema_key
entry_found = refl

srl_there : has_schema one_list (uncached one_list false list_db) (request_key srl_name) ≡ true
unfolding has_schema lookup build_schema_key
srl_there = refl

no_panics :
    NoPanics one_list false list_db false
      (request_key srl_name)
      []
      (codes "if" ∷ (codes "entry" ∷ []))
unfolding get_schema_at index_of lookup build_schema_key
no_panics = ((λ h. cc), ((λ h. cc), tt))

get_schema_elements_prefixes_example :
    get_schema_elements one_list
      (record {
        schema = some srl_name;
        path = record { origin = []; target = []; elem = if_entry };
        with_description = false;
      })
      (uncached one_list false list_db)
    ≡ (
      ok (
          prefix_messages one_list false list_db false
            (request_key srl_name)
            []
            (codes "if" ∷ (codes "entry" ∷ []))),
      uncached one_list false list_db,
    )
get_schema_elements_prefixes_example =
    get_schema_elements_prefixes one_list false list_db false srl_name [] [] if_entry
      (container (list_of (codes "entry"))) srl_there entry_found no_panics

messages_sent :
    prefix_messages one_list false list_db false
      (request_key srl_name)
      []
      (codes "if" ∷ (codes "entry" ∷ []))
    ≡ none ∷ (some (container (list_of (codes "entry"))) ∷ [])
unfolding get_schema_at index_of lookup build_schema_key
messages_sent = refl
