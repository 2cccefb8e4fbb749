-- ===== src/Store/Persist/Elements.antt =====
-- pkg/store/persiststore/persiststore.go: `GetSchemaElements`. The messages are all that the channel
-- carries before it is closed, for a context that is not cancelled; `none` is a nil message.
pub mod Prefixes
mod Tests
use sdcio_schema_server.Base.{
  ℕ, Bool, not, Option, none, some, List, [], ◌∷◌, ◌++◌, Str, str_eq, Result, ok, err, panic,
  unknown_schema, refuse, ◌>>=◌, ◌>>◌,
}
use sdcio_schema_server.Sdcpb.{PathElem, SdcPath, SchemaElem, GetSchemaRequest}
use sdcio_schema_server.Store.{SchemaKey, request_key, require}
use sdcio_schema_server.Store.Badger.{Libs}
use sdcio_schema_server.Store.Persist.{PersistStore, has_schema}
use sdcio_schema_server.Store.Persist.Reads.{get_schema_at}

-- The elements of `sp`: names without keys.
abbrev pub named_elems : List Str → List PathElem
named_elems [] = []
named_elems (n ∷ ns) = record { name = n; key = [] } ∷ named_elems ns

abbrev pub path_of_names : List Str → SdcPath
path_of_names ns = record { origin = []; target = []; elem = named_elems ns }

abbrev pub names_of : List PathElem → List Str
names_of [] = []
names_of (pe ∷ pes) = pe.name ∷ names_of pes

module _ (l : Libs) where
  abbrev pub Messages : Type 0
  Messages = Result (List (Option SchemaElem)) × PersistStore l

  abbrev pub put_first : Option SchemaElem → Messages → Messages
  put_first m (ok ms, s) = (ok (m ∷ ms), s)
  put_first m (err e, s) = (err e, s)
  put_first m (panic, s) = (panic, s)

  -- The loop of the goroutine, behind the names `before`. An error is logged, and the nil response is
  -- sent.
  unfoldable pub send_prefixes : Bool → SchemaKey → List Str → List Str → PersistStore l → Messages
  unfolding get_schema_at
  send_prefixes with_desc k before [] s = (ok [], s)
  send_prefixes with_desc k before (n ∷ ns) s =
      let read = get_schema_at l s (path_of_names (before ++ n ∷ [])) with_desc k in
      let rest = send_prefixes with_desc k (before ++ n ∷ []) ns read.1 in
      elim read.0 [
        | ok e ↦ put_first (some e) rest
        | err e ↦ put_first none rest
        | panic ↦ (panic, read.1)
      ]

  -- What is sent when the path was found: the entry itself for a path of one element.
  abbrev pub send_verified :
      Bool → SchemaKey → List PathElem → Result SchemaElem × PersistStore l → Messages
  send_verified with_desc k pes (err e, s) = (err e, s)
  send_verified with_desc k pes (panic, s) = (panic, s)
  send_verified with_desc k [] (ok e, s) = send_prefixes with_desc k [] [] s
  send_verified with_desc k (pe ∷ []) (ok e, s) = (ok (some e ∷ []), s)
  send_verified with_desc k (pe ∷ (qe ∷ pes)) (ok e, s) =
      send_prefixes with_desc k [] (names_of (pe ∷ (qe ∷ pes))) s

  unfoldable pub get_schema_elements : GetSchemaRequest → PersistStore l → Messages
  unfolding has_schema get_schema_at send_prefixes
  get_schema_elements req s =
      let checked = (do
        n ← require req.schema
        refuse (not (has_schema l s (request_key n))) unknown_schema
        ok (request_key n)) in
      elim checked [
        | err e ↦ (err e, s)
        | panic ↦ (panic, s)
        | ok k ↦
            send_verified req.with_description k req.path.elem
              (get_schema_at l s req.path req.with_description k)
      ]
