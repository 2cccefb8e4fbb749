-- ===== src/Store/Persist/Expand.antt =====
-- pkg/store/persiststore/persiststore.go: `ExpandPath` and `addPath`. The recursion ends where the
-- database has no entries further down, so it runs on fuel.
pub mod Starred
pub mod Tests
use sdcio_schema_server.Base.{
  ℕ, zero, suc, Bool, false, Option, none, some, List, [], ◌∷◌, ◌++◌, Str, codes, str_eq, Dict,
  insert, Result, ok, err, panic, out_of_fuel, ◌>>=◌, if◌then◌else◌,
}
use sdcio_schema_server.Sdcpb.{
  PathElem, SdcPath, DataType, SchemaName, LeafSchema, LeafListSchema, ContainerSchema, SchemaElem,
  container, field, leaflist, ExpandPathRequest, ExpandPathResponse, path_or_empty,
}
use sdcio_schema_server.Schema.Expand.{is_wanted}
use sdcio_schema_server.Store.Badger.{Libs}
use sdcio_schema_server.Store.Persist.{PersistStore}
use sdcio_schema_server.Store.Persist.Reads.{get_schema}
use sdcio_schema_server.Xpath.Strings.{to_xpath}

abbrev pub no_paths : ExpandPathResponse
no_paths = record { path = []; xpath = [] }

-- `addPath`
unfoldable pub add_path : DataType → Bool → SdcPath → Bool → ExpandPathResponse → ExpandPathResponse
unfolding is_wanted to_xpath
add_path dt xpath p is_state rsp =
    if is_wanted dt is_state
    then (if xpath
        then record rsp { xpath = rsp.xpath ++ to_xpath p false ∷ [] }
        else record rsp { path = rsp.path ++ p ∷ [] })
    else rsp

-- The write of one key to the last element, which is read whatever the length.
unfoldable pub star_last : Str → List PathElem → Result (List PathElem)
unfolding insert
star_last k [] = panic
star_last k (pe ∷ []) = ok (record pe { key = insert k (codes "*") pe.key } ∷ [])
star_last k (pe ∷ (qe ∷ pes)) = star_last k (qe ∷ pes) >>= λ rest. ok (pe ∷ rest)

-- The loop over the keys of the container.
unfoldable pub star_keys : List LeafSchema → List PathElem → Result (List PathElem)
unfolding star_last
star_keys [] pes = ok pes
star_keys (k ∷ ks) pes = star_last k.name pes >>= star_keys ks

-- The clone of the path, with one more element.
abbrev pub extended : SdcPath → List PathElem → Str → SdcPath
extended p pes n = record p { elem = pes ++ record { name = n; key = [] } ∷ [] }

module _ (dt : DataType) (xpath : Bool) (p : SdcPath) (pes : List PathElem) where
  -- The loops over the fields and over the leaf-lists.
  unfoldable pub add_fields : List LeafSchema → ExpandPathResponse → ExpandPathResponse
  unfolding add_path
  add_fields [] rsp = rsp
  add_fields (f ∷ fs) rsp = add_fields fs (add_path dt xpath (extended p pes f.name) f.is_state rsp)

  unfoldable pub add_leaflists : List LeafListSchema → ExpandPathResponse → ExpandPathResponse
  unfolding add_path
  add_leaflists [] rsp = rsp
  add_leaflists (f ∷ fs) rsp =
      add_leaflists fs (add_path dt xpath (extended p pes f.name) f.is_state rsp)

module _ (l : Libs) where
  -- A call on a store that may change it.
  abbrev pub Call : Type 0 → Type 0
  Call A = PersistStore l → Result A × PersistStore l

  abbrev pub then_call {ℓ} :
      {A : Type ℓ} {B : Type 0}
      → Result A × PersistStore l
      → (A → Call B)
      → Result B × PersistStore l
  then_call (ok a, s) next = next a s
  then_call (err e, s) next = (err e, s)
  then_call (panic, s) next = (panic, s)

  abbrev pub both : ExpandPathResponse → ExpandPathResponse → ExpandPathResponse
  both a b = record { path = a.path ++ b.path; xpath = a.xpath ++ b.xpath }

  -- The loop over the children; `expand` is the call of `ExpandPath`.
  unfoldable pub expand_children :
      (SdcPath → Call ExpandPathResponse)
      → SdcPath
      → List PathElem
      → List Str
      → ExpandPathResponse
      → Call ExpandPathResponse
  expand_children expand p pes [] rsp s = (ok rsp, s)
  expand_children expand p pes (c ∷ cs) rsp s =
      then_call (expand (extended p pes c) s)
        (λ below. expand_children expand p pes cs (both rsp below))

  -- The switch on the entry that was read.
  unfoldable pub expand_elem :
      (SdcPath → Call ExpandPathResponse)
      → DataType
      → Bool
      → SdcPath
      → SchemaElem
      → Call ExpandPathResponse
  unfolding star_keys add_fields add_leaflists add_path expand_children
  expand_elem expand dt xpath p (container c) s =
      then_call (star_keys c.keys p.elem, s)
        (λ pes.
          expand_children expand p pes c.children (
            add_leaflists dt xpath p pes c.leaflists (add_fields dt xpath p pes c.fields no_paths)))
  expand_elem expand dt xpath p (field f) s = (ok (add_path dt xpath p f.is_state no_paths), s)
  expand_elem expand dt xpath p (leaflist f) s = (ok (add_path dt xpath p f.is_state no_paths), s)

  -- `ExpandPath`, for a schema that the request names and a path that is there.
  unfoldable pub expand_path_at :
      ℕ → SchemaName → DataType → Bool → SdcPath → Call ExpandPathResponse
  unfolding get_schema expand_elem
  expand_path_at zero n dt xpath p s = (err out_of_fuel, s)
  expand_path_at (suc f) n dt xpath p s =
      then_call (get_schema l s n p false) (expand_elem (expand_path_at f n dt xpath) dt xpath p)

  -- `req.GetSchema()`, whose getters read a nil message as an empty one.
  abbrev pub name_or_empty : Option SchemaName → SchemaName
  name_or_empty none = record { name = []; vendor = []; version = [] }
  name_or_empty (some n) = n

  -- A nil path: the clone of it is nil, and the container branch reads its elements.
  unfoldable pub expand_nil : DataType → Bool → SchemaElem → Call ExpandPathResponse
  unfolding add_path
  expand_nil dt xpath (container c) s = (panic, s)
  expand_nil dt xpath (field f) s =
      (ok (add_path dt xpath (path_or_empty none) f.is_state no_paths), s)
  expand_nil dt xpath (leaflist f) s =
      (ok (add_path dt xpath (path_or_empty none) f.is_state no_paths), s)

  -- `ExpandPath`; only the path of a request may be nil, the recursive calls have one.
  unfoldable pub expand_path : ℕ → ExpandPathRequest → Call ExpandPathResponse
  unfolding expand_path_at expand_nil
  expand_path fuel req s =
      let n = name_or_empty req.schema in
      elim req.path [
        | none ↦
            then_call (get_schema l s n (path_or_empty none) false)
              (expand_nil req.data_type req.xpath)
        | some p ↦ expand_path_at fuel n req.data_type req.xpath p s
      ]
