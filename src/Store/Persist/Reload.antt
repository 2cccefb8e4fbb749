-- ===== src/Store/Persist/Reload.antt =====
-- What `ReloadSchema` does to the schemas of the persistent store.
use sdcio_schema_server.Base.{
  ◌≡◌, ◌≢◌, refl, subst, true, false, List, [], Error, Str, has_prefix-append, append-nil,
  has_prefix, str_beq_iff, Result, ok, err, panic, is_ok, arith,
}
use sdcio_schema_server.Sdcpb.{SchemaName}
use sdcio_schema_server.Yang.{Entry, Goyang}
use sdcio_schema_server.Schema.Element.{Annotations}
use sdcio_schema_server.Schema.Load.{Host, Schema}
use sdcio_schema_server.Store.{SchemaKey}
use sdcio_schema_server.Store.Keys.Injective.{extends}
use sdcio_schema_server.Store.Badger.{Libs, IsWritable}
use sdcio_schema_server.Store.Persist.{
  PersistStore, batch, flushed, left_by_flush, add_schema, replace_by, reparsed, reload_schema,
}
use sdcio_schema_server.Store.Persist.Delete.{commit_failed}

pub extends_refl : (k : SchemaKey) → extends k k ≡ true
extends_refl k =
    ground (arith, str_beq_iff k.name k.name, str_beq_iff k.vendor k.vendor, prefix_refl k.version)
  where
    prefix_refl : (s : Str) → has_prefix s s ≡ true
    prefix_refl s =
        subst (λ (t : Str). has_prefix s t ≡ true) (append-nil s) (has_prefix-append s [])

module _ (l : Libs) (y : Goyang) (h : Host) (annotate : Entry → Result Annotations) where
  -- A reload whose parsing fails leaves the store as it was.
  pub reload_schema_unparsed :
      (s : PersistStore l) (n : SchemaName)
      → is_ok (reparsed l y h annotate s n) ≡ false
      → (reload_schema l y h annotate s n).1 ≡ s
  unfolding reload_schema
  reload_schema_unparsed s n e = unchanged (reparsed l y h annotate s n) e
    where
      unchanged : (r : Result Schema) → is_ok r ≡ false → (replace_by l y h annotate s n r).1 ≡ s
      unchanged (ok sc) g = cc
      unchanged (err e) g = refl
      unchanged panic g = refl

  -- An addition that fails leaves a database that takes every write as it was.
  pub add_schema_failed :
      (w : IsWritable l) (s : PersistStore l) (sc : Schema)
      → (add_schema l y s sc).0 ≢ ok tt
      → (add_schema l y s sc).1 ≡ s
  unfolding add_schema
  add_schema_failed w s sc g = commit_failed l s _ _ (kept (batch l y sc)) g
    where
      kept :
          (ws : Result (List (Str × Str))) (e : Error)
          → flushed l y s ws ≡ err e
          → left_by_flush l y s ws ≡ s.db
      kept (ok ws) e k = let (d, done) = w.flush_ok ws s.db in cc
      kept (err x) e k = refl
      kept panic e k = refl
