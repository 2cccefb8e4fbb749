-- ===== src/Store/Badger.antt =====
-- The libraries under the persistent store, as parameters: the database badger, the codecs of
-- protobuf and JSON, and the cache ttlcache.
use sdcio_schema_server.Base.{
  ◌≡◌, Bool, true, false, ◌||◌, Option, none, some, List, [], ◌∷◌, ◌++◌, Str, str_eq, ◌==◌,
  has_prefix, Result, ok, is_ok, if◌then◌else◌,
}
use sdcio_schema_server.Sdcpb.{SchemaElem}
use sdcio_schema_server.Store.{SchemaKey}

-- The lists that are stored with a schema, as JSON.
pub record Sources : Type 0 where
  pub files : List Str
  pub directories : List Str
  pub excludes : List Str

pub record CacheKey : Type 0 where
  pub schema : SchemaKey
  pub path : Str

pub record Libs : Type 1 where
  -- `txn.Get`, an item being the value that it stands for, and `ValueCopy` of the item; a write batch
  -- that is flushed, its entries in order; `DropPrefix`; what the database holds behind one of these
  -- that fails; the keys that an iterator visits from a prefix on
  pub Db : Type 0
  pub get : Db → Str → Result Str
  pub value_copy : Str → Result Str
  pub flush : List (Str × Str) → Db → Result Db
  pub drop_prefix : List Str → Db → Result Db
  pub failed_flush : List (Str × Str) → Db → Db
  pub failed_drop : List Str → Db → Db
  pub keys_with : Str → Db → List Str
  -- `proto.Marshal`, `proto.Unmarshal`, `json.Marshal`, `json.Unmarshal`
  pub marshal : SchemaElem → Result Str
  pub unmarshal : Str → Result SchemaElem
  pub marshal_sources : Sources → Result Str
  pub unmarshal_sources : Str → Result Sources
  -- the cache; an item may be gone at any time
  pub Cache : Type 0
  pub cached : Cache → CacheKey → Option SchemaElem
  pub store : CacheKey → SchemaElem → Cache → Cache

-- The last value that a batch writes to a key.
unfoldable pub written : Str → List (Str × Str) → Option Str
written k [] = none
written k ((j, v) ∷ ws) = elim (written k ws) [
  | some w ↦ some w
  | none ↦ if j == k then some v else none
]

unfoldable pub has_any_prefix : List Str → Str → Bool
unfolding has_prefix
has_any_prefix [] k = false
has_any_prefix (p ∷ ps) k = has_prefix p k || has_any_prefix ps k

-- What the store relies on of badger and the codecs.
pub record IsReliable (l : Libs) : Type 0 where
  -- an item gives its value
  pub value_copy_ok : (v : Str) → l.value_copy v ≡ ok v
  -- a flushed batch is read back, and touches no other key
  pub get-flush_written :
      (ws : List (Str × Str)) (db db' : l.Db) (k v : Str)
      → l.flush ws db ≡ ok db'
      → written k ws ≡ some v
      → l.get db' k ≡ ok v
  pub get-flush_other :
      (ws : List (Str × Str)) (db db' : l.Db) (k : Str)
      → l.flush ws db ≡ ok db'
      → written k ws ≡ none
      → l.get db' k ≡ l.get db k
  -- the keys with one of the prefixes are gone, and no others
  pub get-drop_gone :
      (ps : List Str) (db db' : l.Db) (k : Str)
      → l.drop_prefix ps db ≡ ok db'
      → has_any_prefix ps k ≡ true
      → is_ok (l.get db' k) ≡ false
  pub get-drop_kept :
      (ps : List Str) (db db' : l.Db) (k : Str)
      → l.drop_prefix ps db ≡ ok db'
      → has_any_prefix ps k ≡ false
      → l.get db' k ≡ l.get db k
  -- JSON reads back what it wrote
  pub unmarshal-marshal_sources :
      (c : Sources) (b : Str) → l.marshal_sources c ≡ ok b → l.unmarshal_sources b ≡ ok c

-- A database that takes every write. Of one that does not, nothing is known behind the error.
pub record IsWritable (l : Libs) : Type 0 where
  pub flush_ok : (ws : List (Str × Str)) (db : l.Db) → (d : l.Db) × (l.flush ws db ≡ ok d)
  pub drop_ok : (ps : List Str) (db : l.Db) → (d : l.Db) × (l.drop_prefix ps db ≡ ok d)

-- The entries of a batch are written in their order: of a batch that is not flushed to its end, the
-- last entry is not written.
pub record KeepsLast (l : Libs) : Type 0 where
  pub get-failed_flush :
      (ws : List (Str × Str)) (k v : Str) (db : l.Db)
      → is_ok (l.flush (ws ++ (k, v) ∷ []) db) ≡ false
      → written k ws ≡ none
      → l.get (l.failed_flush (ws ++ (k, v) ∷ []) db) k ≡ l.get db k
