-- ===== src/Store/Persist/Found/Named.antt =====
-- What `getSchema` reads of a schema that was added, where names hold no separator.
use sdcio_schema_server.Base.{
  ℕ, Bool, ◌≡◌, ap, ◌∙◌, true, false, none, List, ◌∷◌, ◌++◌, Str, str_eq, ◌==◌, All, ok,
}
use sdcio_schema_server.Sdcpb.{SdcPath, SchemaElem}
use sdcio_schema_server.Yang.{Entry, Node, Goyang}
use sdcio_schema_server.Schema.Container.{schema_elem_from}
use sdcio_schema_server.Schema.Load.{Schema}
use sdcio_schema_server.Store.{key_of}
use sdcio_schema_server.Store.Keys.{get_entry_path}
use sdcio_schema_server.Store.Keys.Paths.{IsPlain, build_entry_key-injective}
use sdcio_schema_server.Store.Badger.{Libs, IsReliable}
use sdcio_schema_server.Store.Persist.{PersistStore, add_schema}
use sdcio_schema_server.Store.Persist.Cached.{cache_key}
use sdcio_schema_server.Store.Persist.Reads.{hit, get_schema_at}
use sdcio_schema_server.Store.Persist.Found.{IsCodec, InSchema, get_schema_at-add_schema}
use sdcio_schema_server.Xpath.Strings.{to_strings}

-- No name of the schema has a separator of the keys; an identifier of YANG has none.
pub record HasPlainNames (y : Goyang) (root : Entry) : Type 0 where
  pub plain :
      (n : Node) (ns : List Str) → InSchema y root n → get_entry_path y n ≡ ok ns → All IsPlain ns

module _ (l : Libs) (y : Goyang) (r : IsReliable l) (codec : IsCodec l) where
  -- A schema that was added can be read: for an entry of its data tree that stands below its
  -- module, a request whose path prefixes the first name with the module's name and whose names are
  -- those of the entry, and which the cache does not answer, is answered with the message, made with
  -- its description, of an entry of the schema that has the same path. No name has a colon or a
  -- slash, and the module's name is not empty and not the first name of the path. The libraries are
  -- reliable, and protobuf reads back what it wrote.
  pub get_schema_at_stored :
      (s : PersistStore l) (sc : Schema) (m : Node) (c : ℕ) (cs p : Str) (ps : List Str)
      (path : SdcPath) (with_desc : Bool)
      → (add_schema l y s sc).0 ≡ ok tt
      → HasPlainNames y sc.root
      → InSchema y sc.root m
      → get_entry_path y m ≡ ok ((c ∷ cs) ∷ (p ∷ ps))
      → (p == c ∷ cs) ≡ false
      → to_strings path false true ≡ ((c ∷ cs) ++ b':' ∷ p) ∷ ps
      → hit l s.cache (cache_key path (key_of sc)) ≡ none
      → (e : SchemaElem) × (n : Node) × InSchema y sc.root n
        × (get_entry_path y n ≡ ok ((c ∷ cs) ∷ (p ∷ ps)))
        × (schema_elem_from y sc.notes true n ≡ ok e)
        × ((get_schema_at l (add_schema l y s sc).1 path with_desc (key_of sc)).0 ≡ ok e)
  get_schema_at_stored s sc m c cs p ps path with_desc h names i named other asked absent =
      let (first, rest) = names.plain m _ i named in
      let (key, keyed, e, answer, read) =
        get_schema_at-add_schema l y r codec s sc m c cs p ps path with_desc h i named
          first.no_colon other asked absent in
      let same =
        build_entry_key-injective (key_of sc) answer.path _ key
          (names.plain answer.at _ answer.inside answer.named) (first, rest) answer.keyed keyed in
      (e, answer.at, answer.inside, answer.named ∙ ap ok same, answer.converted, read)
