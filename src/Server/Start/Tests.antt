-- ===== src/Server/Start/Tests.antt =====
-- Two goroutines of a server with the memory store, one of which finds no files.
use sdcio_schema_server.Base.{
  ℕ, ◌≤◌, ◌≡◌, refl, List, [], ◌∷◌, codes, ok, err, arith, unknown_store_type, str_eq, lookup,
}
use sdcio_schema_server.Config.{SchemaConfig, empty_store}
use sdcio_schema_server.Store.{key_beq, config_of}
use sdcio_schema_server.Store.Interface.Memory.{memory, memory-IsStore}
use sdcio_schema_server.Store.Mem
use sdcio_schema_server.Store.Sample.{libs, host, annotate_none, srl_name}
use sdcio_schema_server.Server.Start.{choose_store, ended, added, unparsed, tasks_of, run}
use sdcio_schema_server.Server.Start.Growth.{AllThere, Grows}
use sdcio_schema_server.Server.Start.Loaded.{turns, left_at, run_loads}

abbrev srl_config : SchemaConfig
srl_config = config_of srl_name (codes "srl.yang" ∷ []) [] []

abbrev lost_config : SchemaConfig
lost_config = record srl_config { name = codes "lost"; files = codes "missing.yang" ∷ [] }

abbrev both_configs : List SchemaConfig
both_configs = srl_config ∷ (lost_config ∷ [])

abbrev interleaved : List ℕ
interleaved = 0 ∷ (1 ∷ (1 ∷ (0 ∷ [])))

outcomes :
    (run
      (memory host annotate_none)
      host
      annotate_none
      interleaved
      (tasks_of both_configs)
      Mem.new).0
    ≡ (srl_config, ended added) ∷ ((lost_config, ended unparsed) ∷ [])
unfolding run Mem.has_schema lookup
outcomes = refl

run_loads_example :
    Grows
      (memory host annotate_none)
      host
      annotate_none
      key_beq
      (memory-IsStore host annotate_none)
      both_configs
      Mem.new
      (run
        (memory host annotate_none)
        host
        annotate_none
        interleaved
        (tasks_of both_configs)
        Mem.new).1
    × AllThere
        (memory host annotate_none)
        host
        annotate_none
        key_beq
        (memory-IsStore host annotate_none)
        (run
          (memory host annotate_none)
          host
          annotate_none
          interleaved
          (tasks_of both_configs)
          Mem.new).0
        (run
          (memory host annotate_none)
          host
          annotate_none
          interleaved
          (tasks_of both_configs)
          Mem.new).1
    × ((i : ℕ)
        → 2 ≤ turns i interleaved
        → left_at i
            (run
              (memory host annotate_none)
              host
              annotate_none
              interleaved
              (tasks_of both_configs)
              Mem.new).0
          ≡ 0)
run_loads_example =
    run_loads (memory host annotate_none) host annotate_none key_beq
      (memory-IsStore host annotate_none) interleaved both_configs Mem.new
      ((omega arith, omega arith), ((omega arith, omega arith), tt))

-- The store that a configuration without one gets has no type, which the server refuses.
default_refused :
    choose_store libs (λ p. ok []) (λ t c. tt) empty_store ≡ err (unknown_store_type [])
unfolding choose_store
default_refused = refl
