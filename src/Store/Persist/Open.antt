-- ===== src/Store/Persist/Open.antt =====
-- pkg/store/persiststore/persiststore.go: `New`. What badger's `Open` returns for the directory is
-- a parameter, and so is the cache that ttlcache makes for a time to live and a capacity.
use sdcio_schema_server.Base.{ℕ, false, Option, none, some, Str, Result, ok, ◌>>=◌}
use sdcio_schema_server.Config.{CacheConfig}
use sdcio_schema_server.Store.Badger.{Libs}
use sdcio_schema_server.Store.Persist.{PersistStore}

module _ (l : Libs) (open_db : Str → Result l.Db) (make_cache : ℕ → ℕ → l.Cache) where
  abbrev pub opened : l.Db → Option CacheConfig → PersistStore l
  opened db none = record { cache_with_description = false; db = db; cache = none }
  opened db (some c) = record {
    cache_with_description = c.with_description;
    db = db;
    cache = some (make_cache c.ttl c.capacity);
  }

  unfoldable pub new_store : Str → Option CacheConfig → Result (PersistStore l)
  new_store path cfg = do db ← open_db path; ok (opened db cfg)
