-- ===== src/Store/Persist/Cached.antt =====
-- What the cache of the persistent store answers.
use sdcio_schema_server.Base.{
  ◌≡◌, refl, ap, ◌∙◌, Bool, true, false, ◌&&◌, not, none, some, codes, join, Result, ok, err, panic,
  if◌then◌else◌,
}
use sdcio_schema_server.Sdcpb.{SdcPath, SchemaElem}
use sdcio_schema_server.Yang.{Entry, Goyang}
use sdcio_schema_server.Schema.Element.{Annotations}
use sdcio_schema_server.Schema.Load.{Host, Schema}
use sdcio_schema_server.Store.{SchemaKey}
use sdcio_schema_server.Store.Badger.{Libs, CacheKey}
use sdcio_schema_server.Store.Persist.{PersistStore, commit, batch, flushed, add_schema}
use sdcio_schema_server.Store.Persist.Reads.{
  hit, remember, with_cache, lookup_elem, is_root_path, remove_description, get_schema_at,
}
use sdcio_schema_server.Xpath.Strings.{to_strings}

-- The key of a path in the cache.
abbrev pub cache_key : SdcPath → SchemaKey → CacheKey
cache_key path k = record { schema = k; path = join (codes "/") (to_strings path false true) }

-- What a request is answered from the cache.
abbrev pub answer : Bool → Bool → SchemaElem → SchemaElem
answer with_desc cached_desc e = if not with_desc && cached_desc then remove_description e else e

module _ (l : Libs) where
  get_schema_at-hit :
      (s : PersistStore l) (path : SdcPath) (with_desc : Bool) (k : SchemaKey) (e : SchemaElem)
      → hit l s.cache (cache_key path k) ≡ some e
      → get_schema_at l s path with_desc k ≡ (ok (answer with_desc s.cache_with_description e), s)
  unfolding get_schema_at
  get_schema_at-hit s path with_desc k e h = rw (h, get_schema_at)

  pub get_schema_at-miss :
      (s : PersistStore l) (path : SdcPath) (with_desc : Bool) (k : SchemaKey)
      → hit l s.cache (cache_key path k) ≡ none
      → is_root_path (to_strings path false true) ≡ false
      → get_schema_at l s path with_desc k
        ≡ with_cache l s (cache_key path k) (lookup_elem l s k (to_strings path false true))
  unfolding get_schema_at
  get_schema_at-miss s path with_desc k h g = rw (h, g, get_schema_at)

  with_cache-remember :
      (s : PersistStore l) (ck : CacheKey) (r : Result SchemaElem) (e : SchemaElem)
      → (with_cache l s ck r).0 ≡ ok e
      → (with_cache l s ck r).1 ≡ remember l s ck e
  with_cache-remember s ck (ok d) e h = ap (remember l s ck) (ok_eq h)
    where
      ok_eq : {a b : SchemaElem} → ◌≡◌ {A = Result SchemaElem} (ok a) (ok b) → a ≡ b
      ok_eq g = cc
  with_cache-remember s ck (err x) e h = cc
  with_cache-remember s ck panic e h = cc

  -- A request that the cache does not answer, and whose entry is in the database, is answered with
  -- the entry as it is stored; the same request again, where the cache still has the item, is
  -- answered without the description if it does not ask for it and the cache is set to hold
  -- descriptions, and as before if not. The path is not the root.
  pub get_schema_at_again :
      (s : PersistStore l) (c : l.Cache) (path : SdcPath) (with_desc : Bool) (k : SchemaKey)
      (e : SchemaElem)
      → s.cache ≡ some c
      → l.cached c (cache_key path k) ≡ none
      → l.cached (l.store (cache_key path k) e c) (cache_key path k) ≡ some e
      → is_root_path (to_strings path false true) ≡ false
      → lookup_elem l s k (to_strings path false true) ≡ ok e
      → ((get_schema_at l s path with_desc k).0 ≡ ok e)
        × ((get_schema_at l (get_schema_at l s path with_desc k).1 path with_desc k).0
            ≡ ok (answer with_desc s.cache_with_description e))
  get_schema_at_again s c path with_desc k e has absent held nonroot found =
      let first =
        get_schema_at-miss s path with_desc k (rw has absent) nonroot
        ∙ ap (with_cache l s (cache_key path k)) found in
      let second =
        get_schema_at-hit (remember l s (cache_key path k) e) path with_desc k e (rw has held) in
      rw first (refl, ap (λ p. p.0) second)

  commit-cache :
      (s : PersistStore l) (left : l.Db) (r : Result l.Db) → (commit l s left r).1.cache ≡ s.cache
  commit-cache s left (ok d) = refl
  commit-cache s left (err e) = refl
  commit-cache s left panic = refl

  commit-described :
      (s : PersistStore l) (left : l.Db) (r : Result l.Db)
      → (commit l s left r).1.cache_with_description ≡ s.cache_with_description
  commit-described s left (ok d) = refl
  commit-described s left (err e) = refl
  commit-described s left panic = refl

  -- Two stores with the same cache.
  abbrev pub SameCache : PersistStore l → PersistStore l → Type 0
  SameCache t s = (t.cache ≡ s.cache) × (t.cache_with_description ≡ s.cache_with_description)

  pub add_schema-SameCache :
      (y : Goyang) (s : PersistStore l) (sc : Schema) → SameCache (add_schema l y s sc).1 s
  unfolding add_schema
  add_schema-SameCache y s sc = (
    commit-cache s _ (flushed l y s (batch l y sc)),
    commit-described s _ (flushed l y s (batch l y sc)),
  )

  module _ (y : Goyang) (h : Host) (annotate : Entry → Result Annotations) where
    -- What the time has left of the cache, if there is one.
    abbrev pub later : (l.Cache → l.Cache) → PersistStore l → PersistStore l
    later elapse s = record s { cache = elim s.cache [ none ↦ none | some c ↦ some (elapse c) ] }
