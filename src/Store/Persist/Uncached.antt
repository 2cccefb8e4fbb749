-- ===== src/Store/Persist/Uncached.antt =====
-- The reads of a store without a cache leave the store as it was.
use sdcio_schema_server.Base.{
  ◌≡◌, refl, Bool, true, false, Bool-cases, inl, inr, none, Result, ok, err, panic,
}
use sdcio_schema_server.Sdcpb.{SdcPath, SchemaElem}
use sdcio_schema_server.Store.{SchemaKey}
use sdcio_schema_server.Store.Badger.{Libs, CacheKey}
use sdcio_schema_server.Store.Persist.{PersistStore}
use sdcio_schema_server.Store.Persist.Reads.{with_cache, is_root_path, get_schema_at}
use sdcio_schema_server.Store.Persist.Cached.{cache_key}
use sdcio_schema_server.Xpath.Strings.{to_strings}

module _ (l : Libs) (described : Bool) (db : l.Db) where
  -- A store that was made without a cache.
  abbrev pub uncached : PersistStore l
  uncached = record { cache_with_description = described; db = db; cache = none }

  with_cache-uncached :
      (k : CacheKey) (r : Result SchemaElem) → (with_cache l uncached k r).1 ≡ uncached
  with_cache-uncached k (ok e) = refl
  with_cache-uncached k (err e) = refl
  with_cache-uncached k panic = refl

  pub get_schema_at-uncached :
      (p : SdcPath) (b : Bool) (k : SchemaKey) → (get_schema_at l uncached p b k).1 ≡ uncached
  unfolding get_schema_at
  get_schema_at-uncached p d k = elim (Bool-cases (is_root_path (to_strings p false true))) [
    | inl b ↦ rw (b, get_schema_at)
    | inr b ↦ rw (b, get_schema_at) (with_cache-uncached (cache_key p k) _)
  ]
