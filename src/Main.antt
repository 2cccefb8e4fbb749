-- ===== src/Main.antt =====
-- main.go, with `New` of pkg/config/config.go and `NewServer`, `Serve` and `Stop` of
-- pkg/server/server.go around the choice of the store and the loading of the schemas. Flags, log
-- levels and the printing of the configuration are left out; the flag `stop`, which the handler of
-- signals sets, is read from the state of the process.
pub mod Locked
mod Tests
use sdcio_schema_server.Base.{
  ℕ, zero, suc, Bool, true, false, ◌||◌, Option, none, some, List, [], ◌∷◌, ◌++◌, Str, str_eq, ◌==◌,
  length, Result, ok, err, panic, if◌then◌else◌,
}
use sdcio_schema_server.Config.{
  Config, GrpcServer, SchemaConfig, SchemaStoreConfig, validate_set_defaults,
}
use sdcio_schema_server.Yang.{Entry, Goyang}
use sdcio_schema_server.Schema.Element.{Annotations}
use sdcio_schema_server.Schema.Load.{Host}
use sdcio_schema_server.Store.Badger.{Libs}
use sdcio_schema_server.Store.Interface.Memory.{memory}
use sdcio_schema_server.Store.Interface.Persistent.{persistent}
use sdcio_schema_server.Server.Io.{Io, pure, ◌>>=◌, ◌>>◌, lift}
use sdcio_schema_server.Server.Start.{
  Opened, choose_store, persistent_type, Task, Progress, starting, absent, ended, Outcome, crashed,
  tasks_of, run,
}
use sdcio_schema_server.Server.Start

-- The process and what it calls.
pub record Process (l : Libs) : Type 1 where
  pub State : Type 0
  -- `os.ReadFile`, `yaml.Unmarshal`, `json.MarshalIndent`
  pub read_file : Str → Io State Str
  pub unmarshal_yaml : Str → Result Config
  pub marshal_indent : Config → Result Str
  -- `badger.Open`
  pub open_db : Str → Io State l.Db
  -- `grpc.NewServer` with its options, the settings of TLS included, and `Stop` of that server with
  -- the end of the context that `NewServer` made
  pub new_grpc : Config → Io State (Unit {0})
  pub stop_grpc : State → State
  -- `net.Listen`, and `Serve` of the gRPC server
  pub listen : Str → Io State (Unit {0})
  pub serve : Io State (Unit {0})
  -- the order in which the goroutines of `NewServer` run, and the flag `stop`
  pub schedule : State → List ℕ
  pub stopping : State → Bool

-- How `main` ends: it returns, it calls `os.Exit(1)`, or it panics. `running` is a run that has used
-- up the rounds that the model gives it.
pub data Exit : Type 0 where
  returned exited panicked running : Exit

-- The positions below a number, twice: the steps after which each goroutine has ended, whatever
-- came before.
unfoldable pub positions : ℕ → List ℕ
positions zero = []
positions (suc n) = positions n ++ n ∷ []

abbrev pub until_ended : List SchemaConfig → List ℕ
until_ended cs = positions (length cs) ++ positions (length cs)

unfoldable pub any_crashed : List Task → Bool
any_crashed [] = false
any_crashed ((c, ended crashed) ∷ ts) = true
any_crashed (t ∷ ts) = any_crashed ts

abbrev pub validated : Result Config → Result Config
validated (ok c) = validate_set_defaults c
validated (err e) = err e
validated panic = panic

-- `config.New`
unfoldable pub new_config : {l : Libs} (p : Process l) → Str → Io p.State Config
unfolding validate_set_defaults
new_config p file = p.read_file file >>= λ b. lift (validated (p.unmarshal_yaml b))

module _ (l : Libs) (p : Process l) (make_cache : ℕ → ℕ → l.Cache) where
  -- The switch of `NewServer`: only a persistent store calls badger.
  unfoldable pub open_store : SchemaStoreConfig → Io p.State (Opened l)
  unfolding choose_store
  open_store sc d = (
    choose_store l (λ path. (p.open_db path d).0) make_cache sc,
    if sc.type == persistent_type then (p.open_db sc.path d).1 else d,
  )

  module _ (y : Goyang) (h : Host) (annotate : Entry → Result Annotations) where
    -- The goroutines of `NewServer`, which waits for them all.
    unfoldable pub load : List ℕ → List SchemaConfig → Opened l → List Task × Opened l
    unfolding Start.run positions
    load is cs (Start.persistent s) =
        let loaded =
          Start.run (persistent l y h annotate) h annotate (is ++ until_ended cs) (tasks_of cs) s in
        (loaded.0, Start.persistent loaded.1)
    load is cs (Start.memory s) =
        let loaded =
          Start.run (memory h annotate) h annotate (is ++ until_ended cs) (tasks_of cs) s in
        (loaded.0, Start.memory loaded.1)

    abbrev pub unless_crashed : List Task × Opened l → Result (Opened l)
    unless_crashed (ts, s) = if any_crashed ts then panic else ok s

    -- The schemas that are there; the validation has refused a configuration with a nil one.
    unfoldable pub present : List (Option SchemaConfig) → List SchemaConfig
    present [] = []
    present (none ∷ cs) = present cs
    present (some c ∷ cs) = c ∷ present cs

    -- `NewServer`; a configuration that was read has a store. The list of the schemas that are in the
    -- store, which is only logged, is left out.
    unfoldable pub new_server : Config → Io p.State (Opened l)
    unfolding open_store load any_crashed present
    new_server c = elim c.schema_store [
      | none ↦ lift panic
      | some sc ↦ open_store sc >>= λ s.
          p.new_grpc c >> λ d. (unless_crashed (load (p.schedule d) (present sc.schemas) s), d)
    ]

    abbrev pub address_of : Config → Str
    address_of c = elim c.grpc_server [ none ↦ [] | some g ↦ g.address ]

    -- `Serve`
    unfoldable pub serve_on : Config → Io p.State (Unit {0})
    serve_on c = p.listen (address_of c) >> p.serve

    -- `Stop`, which leaves the store as it is; there is nothing to stop before the first server.
    abbrev pub stop_last : Option (Opened l) → p.State → p.State
    stop_last none d = d
    stop_last (some s) d = p.stop_grpc d

    -- From the label START to the end of `NewServer`.
    unfoldable pub start : Str → Io p.State (Config × Opened l)
    unfolding new_config new_server
    start file = new_config p file >>= λ c.
        lift (p.marshal_indent c) >>= λ b. new_server c >>= λ s. pure (c, s)

    -- `main` from the label START on.
    unfoldable pub main_loop : ℕ → Str → Option (Opened l) → p.State → Exit × p.State
    unfolding start serve_on
    main_loop zero file last d = (running, d)
    main_loop (suc n) file last d =
        let started = start file (stop_last last d) in
        elim started.0 [
          | err e ↦ (exited, started.1)
          | panic ↦ (panicked, started.1)
          | ok t ↦
              let served = serve_on t.0 started.1 in
              let again = main_loop n file (some t.1) served.1 in
              elim served.0 [
                | ok u ↦ (returned, served.1)
                | panic ↦ (panicked, served.1)
                | err e ↦ if p.stopping served.1 then (returned, served.1) else again
              ]
        ]
