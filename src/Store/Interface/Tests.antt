-- ===== src/Store/Interface/Tests.antt =====
-- The refinement theorems at concrete sequences of changes.
use sdcio_schema_server.Base.{false, none, arith, List, [], ◌∷◌, codes}
use sdcio_schema_server.Store.{key_beq, request_key}
use sdcio_schema_server.Store.Keys.Injective.{IsSeparable}
use sdcio_schema_server.Store.Sample.{host, annotate_none, srl_name, libs}
use sdcio_schema_server.Store.Mem.{new}
use sdcio_schema_server.Store.Persist.{PersistStore}
use sdcio_schema_server.Store.Interface.Memory.{memory}
use sdcio_schema_server.Store.Interface.Catalogue.{Change, create, delete, Refines, memory-Refines}

-- A schema is created twice, the second time in vain, and deleted.
abbrev changes : List Change
changes =
    create srl_name (codes "srl.yang" ∷ []) [] []
    ∷ (create srl_name (codes "srl.yang" ∷ []) [] [] ∷ (delete srl_name ∷ []))

srl-IsSeparable : IsSeparable (request_key srl_name)
srl-IsSeparable = (omega arith, omega arith)

memory-Refines_example :
    Refines (memory host annotate_none) key_beq changes new (request_key srl_name)
memory-Refines_example =
    memory-Refines host annotate_none changes new (request_key srl_name)
      (srl-IsSeparable, (srl-IsSeparable, (srl-IsSeparable, tt))) srl-IsSeparable

abbrev empty_store : PersistStore libs
empty_store = record { db = []; cache = none; cache_with_description = false }
