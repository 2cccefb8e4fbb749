-- ===== src/Server/Start.antt =====
-- pkg/server/server.go: `NewServer`, up to the options of gRPC. The store is chosen by its type, and
-- each configured schema is loaded by a goroutine of its own. A goroutine takes two steps, the test
-- for the schema and, where it is absent, its parsing and addition; `run` performs the steps in the
-- order of a schedule, a list of positions. The disk does not change meanwhile.
pub mod Growth
pub mod Loaded
mod Tests
use sdcio_schema_server.Base.{
  ℕ, zero, suc, List, [], ◌∷◌, map, Str, codes, str_eq, ◌==◌, Result, ok, err, panic,
  unknown_store_type, ◌>>=◌, if◌then◌else◌, Option,
}
use sdcio_schema_server.Config.{SchemaConfig, SchemaStoreConfig}
use sdcio_schema_server.Yang.{Entry}
use sdcio_schema_server.Schema.Element.{Annotations}
use sdcio_schema_server.Schema.Load.{Host, Schema, new_schema}
use sdcio_schema_server.Store.{key_in}
use sdcio_schema_server.Store.Badger.{Libs}
use sdcio_schema_server.Store.Interface.{StoreOps}
use sdcio_schema_server.Store.Mem
use sdcio_schema_server.Store.Mem.{MemStore}
use sdcio_schema_server.Store.Persist.{PersistStore}
use sdcio_schema_server.Store.Persist.Open.{new_store}

pub data Opened (l : Libs) : Type 0 where
  persistent : PersistStore l → Opened l
  memory : MemStore → Opened l

-- `StoreTypePersistent` and `StoreTypeMemory`
abbrev pub persistent_type : Str
persistent_type = codes "persistent"

abbrev pub memory_type : Str
memory_type = codes "memory"

-- The switch on the type of the store.
unfoldable pub choose_store :
    (l : Libs) → (Str → Result l.Db) → (ℕ → ℕ → l.Cache) → SchemaStoreConfig → Result (Opened l)
unfolding new_store
choose_store l open_db make_cache c =
    if c.type == persistent_type
    then (new_store l open_db make_cache c.path c.cache >>= λ s. ok (persistent s))
    else if c.type == memory_type
    then ok (memory Mem.new)
    else err (unknown_store_type c.type)

-- How a goroutine ends. `crashed` is a panic, which ends the process.
pub data Outcome : Type 0 where
  existing unparsed refused added crashed : Outcome

pub data Progress : Type 0 where
  starting absent : Progress
  ended : Outcome → Progress

abbrev pub Task : Type 0
Task = SchemaConfig × Progress

abbrev pub tasks_of : List SchemaConfig → List Task
tasks_of cs = map (λ c. (c, starting)) cs

module _ (o : StoreOps) (h : Host) (annotate : Entry → Result Annotations) where
  abbrev pub outcome_of : Result (Unit {0}) × o.State → Progress × o.State
  outcome_of (ok u, s) = (ended added, s)
  outcome_of (err e, s) = (ended refused, s)
  outcome_of (panic, s) = (ended crashed, s)

  abbrev pub add_parsed : Result Schema → o.State → Progress × o.State
  add_parsed (ok sc) s = outcome_of (o.add_schema s sc)
  add_parsed (err e) s = (ended unparsed, s)
  add_parsed panic s = (ended crashed, s)

  -- One step of the goroutine for a schema.
  unfoldable pub advance : SchemaConfig → Progress → o.State → Progress × o.State
  unfolding new_schema
  advance c starting s = (if o.has_schema s (key_in c) then ended existing else absent, s)
  advance c absent s = add_parsed (new_schema h annotate c) s
  advance c (ended x) s = (ended x, s)

  -- A step of the goroutine at a position; beyond the last there is none.
  unfoldable pub step_at : ℕ → List Task → o.State → List Task × o.State
  unfolding advance
  step_at i [] s = ([], s)
  step_at zero ((c, p) ∷ ts) s = let moved = advance c p s in ((c, moved.0) ∷ ts, moved.1)
  step_at (suc i) (t ∷ ts) s = let moved = step_at i ts s in (t ∷ moved.0, moved.1)

  unfoldable pub run : List ℕ → List Task → o.State → List Task × o.State
  unfolding step_at
  run [] ts s = (ts, s)
  run (i ∷ is) ts s = let moved = step_at i ts s in run is moved.0 moved.1
