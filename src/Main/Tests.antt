-- ===== src/Main/Tests.antt =====
-- A process whose listener always fails, over a database that can be opened once.
use sdcio_schema_server.Base.{
  ◌≡◌, refl, true, false, Bool-cases, inl, inr, none, some, List, [], ◌∷◌, Str, codes, str_eq,
  beq_refl, Error, Result, ok, err, external, if◌then◌else◌,
}
use sdcio_schema_server.Config.{Config, SchemaStoreConfig, empty_store, server_defaults}
use sdcio_schema_server.Schema.Container.{in_set}
use sdcio_schema_server.Schema.Tests.{kinds}
use sdcio_schema_server.Store.Sample.{libs, host, annotate_none}
use sdcio_schema_server.Server.Io.{Io, pure, fail}
use sdcio_schema_server.Server.Start.{persistent, persistent_type}
use sdcio_schema_server.Store.Persist.{PersistStore}
use sdcio_schema_server.Main.{Process, exited, start, serve_on, main_loop, new_config}
use sdcio_schema_server.Main.Locked.{IsLocking, main_loop_ends}

abbrev db_path : Str
db_path = codes "/schemas"

abbrev store_config : SchemaStoreConfig
store_config = record empty_store { type = persistent_type; path = db_path }

abbrev written_config : Config
written_config = record { grpc_server = none; schema_store = some store_config }

abbrev open_once : Str → Io (List Str) (List (Str × Str))
open_once path d = if in_set path d then (err (external path), d) else (ok [], path ∷ d)

abbrev process : Process libs
process = record {
  State = List Str;
  read_file = λ f. pure [];
  unmarshal_yaml = λ b. ok written_config;
  marshal_indent = λ c. ok [];
  open_db = open_once;
  new_grpc = λ c. pure tt;
  stop_grpc = λ d. d;
  listen = λ a. fail (external a);
  serve = pure tt;
  schedule = λ d. [];
  stopping = λ d. false;
}

open_once-locked :
    (path : Str) (d : List Str)
    → in_set path d ≡ true
    → (e : Error) × ((open_once path d).0 ≡ err e)
open_once-locked path d h = (external path, rw h refl)

open_once-Held :
    (path : Str) (d : List Str) (db : List (Str × Str))
    → (open_once path d).0 ≡ ok db
    → in_set path (open_once path d).1 ≡ true
unfolding in_set
open_once-Held path d db h = elim (Bool-cases (in_set path d)) [
  | inl e ↦ absurd (absurd_err (rw e at h))
  | inr e ↦ rw (e, in_set, beq_refl path) refl
]
  where
    absurd_err : ◌≡◌ {A = Result (List (Str × Str))} (err (external path)) (ok db) → ⊥
    absurd_err g = cc

process-IsLocking : IsLocking process
process-IsLocking = record {
  Held = λ path d. in_set path d ≡ true;
  open_db-locked = open_once-locked;
  open_db-Held = open_once-Held;
  read_file-Held = λ path f d h. h;
  new_grpc-Held = λ path c d h. h;
  stop_grpc-Held = λ path d h. h;
  listen-Held = λ path a d h. h;
  serve-Held = λ path d h. h;
}

abbrev full_config : Config
full_config = record written_config { grpc_server = some (server_defaults none) }

abbrev first_store : PersistStore libs
first_store = record { cache_with_description = false; db = []; cache = none }

main_loop_ends_example :
    (main_loop libs process (λ t c. tt) kinds host annotate_none 2 (codes "f.yaml") none []).0
    ≡ exited
main_loop_ends_example =
    main_loop_ends libs process process-IsLocking (λ t c. tt) store_config refl kinds host
      annotate_none full_config refl (codes "f.yaml") [] (unfold new_config in λ d. refl) refl 0 []
      (full_config, persistent first_store) (external (server_defaults none).address)
      (unfold start in_set in refl) (unfold serve_on in refl) refl
