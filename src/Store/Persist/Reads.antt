-- ===== src/Store/Persist/Reads.antt =====
-- pkg/store/persiststore/persiststore.go: the reads of entries, `GetSchema` with its cache and
-- `ToPath`.
use sdcio_schema_server.Base.{
  is_nil, ℕ, zero, suc, Bool, true, false, ◌&&◌, not, Option, none, some, List, [], ◌∷◌, ◌++◌, Str,
  codes, str_eq, ◌==◌, Dict, insert, join, length, Result, ok, err, panic, unknown_schema,
  missing_path, key_not_found, out_of_fuel, refuse, ◌>>=◌, ◌>>◌, if◌then◌else◌,
}
use sdcio_schema_server.Sdcpb.{
  PathElem, SdcPath, SchemaName, LeafSchema, SchemaElem, container, field, leaflist, ToPathRequest,
}
use sdcio_schema_server.Yang.{root_name}
use sdcio_schema_server.Schema.Lookup.{query_of}
use sdcio_schema_server.Schema.BuildPath.{has_prefix_part}
use sdcio_schema_server.Store.{SchemaKey, request_key, require}
use sdcio_schema_server.Store.Keys.{build_entry_key}
use sdcio_schema_server.Store.Badger.{Libs, CacheKey}
use sdcio_schema_server.Xpath.Strings.{to_strings}
use sdcio_schema_server.Store.Persist.{PersistStore, has_schema}

-- `removeDescription`
unfoldable pub remove_description : SchemaElem → SchemaElem
remove_description (container c) = container (record c { description = [] })
remove_description (field l) = field (record l { description = [] })
remove_description (leaflist l) = leaflist (record l { description = [] })

-- `se.GetContainer().GetChildren()` and `GetKeys()`, empty for other elements.
abbrev pub children_names : SchemaElem → List Str
children_names (container c) = c.children
children_names (field l) = []
children_names (leaflist l) = []

abbrev pub is_root_path : List Str → Bool
is_root_path [] = true
is_root_path ([] ∷ []) = true
is_root_path _ = false

module _ (l : Libs) where
  open l use {get, value_copy, unmarshal, Cache, cached, store}

  -- The read of one key, with its message.
  unfoldable pub read_elem : PersistStore l → Result Str → Result SchemaElem
  read_elem s key = do k ← key; item ← get s.db k; b ← value_copy item; unmarshal b

  -- `getModules`
  unfoldable pub get_modules : PersistStore l → SchemaKey → Result (List Str)
  unfolding read_elem build_entry_key
  get_modules s k = do se ← read_elem s (build_entry_key k (root_name ∷ [])); ok (children_names se)

  -- The key under one module: a path that starts with the module's name is taken as it is.
  abbrev pub module_key : SchemaKey → Str → List Str → Result Str
  module_key k m [] = build_entry_key k (m ∷ [])
  module_key k m (p ∷ ps) =
      if p == m then build_entry_key k (p ∷ ps) else build_entry_key k (m ∷ (p ∷ ps))

  -- The value of the first module that has the key; an error of `Get` goes on to the next module.
  unfoldable pub first_value : PersistStore l → SchemaKey → List Str → List Str → Result Str
  unfolding build_entry_key
  first_value s k pes [] = err (key_not_found (join (codes "/") pes))
  first_value s k pes (m ∷ ms) = module_key k m pes >>= λ key. elim (get s.db key) [
    | ok item ↦ value_copy item
    | err e ↦ first_value s k pes ms
    | panic ↦ panic
  ]

  -- The read of `getSchema` from the database, behind the cache.
  unfoldable pub lookup_elem : PersistStore l → SchemaKey → List Str → Result SchemaElem
  unfolding get_modules first_value query_of
  lookup_elem s k [] = err (key_not_found [])
  lookup_elem s k (p ∷ ps) =
      let q = query_of p ps in
      if has_prefix_part p
      then (first_value s k q.rest (q.first ∷ []) >>= unmarshal)
      else (get_modules s k >>= λ ms. first_value s k (p ∷ ps) ms >>= unmarshal)

  abbrev pub hit : Option Cache → CacheKey → Option SchemaElem
  hit none k = none
  hit (some c) k = cached c k

  abbrev pub remember : PersistStore l → CacheKey → SchemaElem → PersistStore l
  remember s k e = record s { cache = elim s.cache [ none ↦ none | some c ↦ some (store k e c) ] }

  abbrev pub with_cache :
      PersistStore l → CacheKey → Result SchemaElem → Result SchemaElem × PersistStore l
  with_cache s k (ok e) = (ok e, remember s k e)
  with_cache s k (err e) = (err e, s)
  with_cache s k panic = (panic, s)

  -- `getSchema`. The root is read from the database whenever the cache does not have it, and is not
  -- put there.
  unfoldable pub get_schema_at :
      PersistStore l → SdcPath → Bool → SchemaKey → Result SchemaElem × PersistStore l
  unfolding to_strings read_elem lookup_elem remove_description build_entry_key
  get_schema_at s path with_desc k =
      let pes = to_strings path false true in
      let ck : CacheKey = record { schema = k; path = join (codes "/") pes } in
      elim (hit s.cache ck) [
        | some e ↦
            (ok (if not with_desc && s.cache_with_description then remove_description e else e), s)
        | none ↦
            if is_root_path pes
            then (read_elem s (build_entry_key k (root_name ∷ [])), s)
            else with_cache s ck (lookup_elem s k pes)
      ]

  -- `GetSchema`, for a schema that the request names.
  unfoldable pub get_schema :
      PersistStore l → SchemaName → SdcPath → Bool → Result SchemaElem × PersistStore l
  unfolding has_schema get_schema_at
  get_schema s n path with_desc =
      if has_schema l s (request_key n)
      then get_schema_at s path with_desc (request_key n)
      else (err unknown_schema, s)

  -- `ToPath`: the values for the keys of a list. A key behind the last path element is a read out of
  -- range.
  unfoldable pub take_keys :
      List LeafSchema → List Str → Dict Str Str → Result (Dict Str Str × List Str)
  unfolding insert
  take_keys [] vs m = ok (m, vs)
  take_keys (k ∷ ks) [] m = panic
  take_keys (k ∷ ks) (v ∷ vs) m = take_keys ks vs (insert k.name v m)

  -- One round of the loop behind the read of the schema: the element, and the path elements left.
  abbrev pub fill_elem : Str → List Str → SchemaElem → Result (PathElem × List Str)
  fill_elem n rest (container c) =
      take_keys c.keys rest [] >>= λ t. ok (record { name = n; key = t.0 }, t.1)
  fill_elem n rest (field f) = ok (record { name = n; key = [] }, rest)
  fill_elem n [] (leaflist f) = panic
  fill_elem n (v ∷ rest) (leaflist f) = ok (record { name = n; key = (n, v) ∷ [] }, rest)

  abbrev pub path_to : List PathElem → SdcPath
  path_to pes = record { origin = []; target = []; elem = pes }

  abbrev pub name_elem : Str → PathElem
  name_elem n = record { name = n; key = [] }

  -- The loop OUTER, over the path elements that are left; each round takes one or more. The test on
  -- the elements left behind the loop never holds: the loop ends at the last one or behind it.
  unfoldable pub to_path_loop :
      ℕ
      → PersistStore l
      → SchemaKey
      → List PathElem
      → List Str
      → Result (List PathElem) × PersistStore l
  unfolding get_schema_at take_keys
  to_path_loop zero s k p rest = (err out_of_fuel, s)
  to_path_loop (suc f) s k p [] = (ok p, s)
  to_path_loop (suc f) s k p (n ∷ []) = (ok (p ++ name_elem n ∷ []), s)
  to_path_loop (suc f) s k p (n ∷ (v ∷ rest)) =
      let read = get_schema_at s (path_to (p ++ name_elem n ∷ [])) false k in
      elim (read.0 >>= fill_elem n (v ∷ rest)) [
        | err e ↦ (err e, read.1)
        | panic ↦ (panic, read.1)
        | ok t ↦ to_path_loop f read.1 k (p ++ t.0 ∷ []) t.1
      ]

  -- The final read of `ToPath`, which validates the path.
  abbrev pub validated :
      SchemaKey → Result (List PathElem) × PersistStore l → Result SdcPath × PersistStore l
  validated k (err e, s) = (err e, s)
  validated k (panic, s) = (panic, s)
  validated k (ok p, s) =
      let read = get_schema_at s (path_to p) false k in
      elim read.0 [
        | ok e ↦ (ok (path_to p), read.1)
        | err e ↦ (err e, read.1)
        | panic ↦ (panic, read.1)
      ]

  unfoldable pub to_path : PersistStore l → ToPathRequest → Result SdcPath × PersistStore l
  unfolding has_schema to_path_loop
  to_path s req =
      let checked = (do
        n ← require req.schema
        refuse (not (has_schema l s (request_key n))) unknown_schema
        refuse (is_nil req.path_element) missing_path
        ok (request_key n)) in
      elim checked [
        | err e ↦ (err e, s)
        | panic ↦ (panic, s)
        | ok k ↦ validated k (to_path_loop (suc (length req.path_element)) s k [] req.path_element)
      ]
