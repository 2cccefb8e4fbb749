-- ===== src/Client/Upload/Sender.antt =====
-- client/cmd/schema_upload.go: the goroutine that sends. It reports an error on a channel that holds
-- one, from which the command receives once, and goes on.
pub mod Blocked
use sdcio_schema_server.Base.{
  ℕ, zero, suc, Bool, true, false, Option, none, some, List, [], ◌∷◌, ◌++◌, map, Str, codes, str_eq,
  ◌==◌, ltb, not, ◌||◌, length, Error, Result, ok, err, panic, if◌then◌else◌, out_of_fuel,
}
use sdcio_schema_server.Sdcpb.{
  FileType, module_file, dependency, UploadSchemaRequest, create_schema, finalize, SchemaName,
  CreateSchemaRequest,
}
use sdcio_schema_server.Store.{create_request}
use sdcio_schema_server.Server.Io.{Io, pure, fail, ◌>>=◌, ◌>>◌, lift}
use sdcio_schema_server.Server.Os.{Os}
use sdcio_schema_server.Client.Upload.{Visit, Files, chunk_message, calc_hash, file_messages}

-- `make(chan error, 1)`
abbrev pub capacity : ℕ
capacity = 1

-- The command receives in one `select`.
abbrev pub receives : ℕ
receives = 1

-- The channel: the errors that the command has received, and those that wait in the channel.
pub record Channel : Type 0 where
  pub received : List Error
  pub held : List Error

-- The sender: it runs, it waits for room in the channel, it sends the same empty chunk again and
-- again, or a panic has ended the program.
pub data Sender : Type 0 where
  running : Channel → Sender
  blocked : Sender
  looping : Sender
  crashed : Sender

-- `senderErrCh <- err`: the command takes the error if it still waits for one, or else the channel
-- holds it if it has room.
unfoldable pub deliver : Error → Channel → Sender
deliver e c =
    if ltb (length c.received) receives
    then running (record c { received = c.received ++ e ∷ [] })
    else if ltb (length c.held) capacity
    then running (record c { held = c.held ++ e ∷ [] })
    else blocked

-- A call that comes to no end has `out_of_fuel`, which is no error of the program.
abbrev pub is_endless : Error → Bool
is_endless out_of_fuel = true
is_endless e = false

module _ {S : Type 0} where
  -- `if err != nil { senderErrCh <- err }`
  unfoldable pub reported : Channel → Result (Unit {0}) × S → Sender × S
  unfolding deliver
  reported c (ok u, s) = (running c, s)
  reported c (err e, s) = (if is_endless e then looping else deliver e c, s)
  reported c (panic, s) = (crashed, s)

  -- The calls of the sender, one after another.
  unfoldable pub run : List (Io S (Unit {0})) → Sender × S → Sender × S
  unfolding reported
  run [] now = now
  run (m ∷ ms) (running c, s) = run ms (reported c (m s))
  run (m ∷ ms) (blocked, s) = (blocked, s)
  run (m ∷ ms) (looping, s) = (looping, s)
  run (m ∷ ms) (crashed, s) = (crashed, s)

  module _ (os : Os) (files : Files) (send : UploadSchemaRequest → Io S (Unit {0}))
      (size rounds : ℕ) (method : Str) where
    open files use {visits, ext, read_file}

    unfoldable pub send_messages : List UploadSchemaRequest → Io S (Unit {0})
    send_messages [] = pure tt
    send_messages (m ∷ ms) = send m >> send_messages ms

    -- The loop with the size 0: the empty chunk is sent again and again, until a send fails. After
    -- `rounds` that do not fail the loop is taken to be endless.
    unfoldable pub send_endless : ℕ → UploadSchemaRequest → Io S (Unit {0})
    send_endless zero m = fail out_of_fuel
    send_endless (suc n) m = send m >> send_endless n m

    unfoldable pub send_divided :
        UploadSchemaRequest → Option (List UploadSchemaRequest) → Io S (Unit {0})
    unfolding send_messages send_endless
    send_divided m none = send_endless rounds m
    send_divided m (some ms) = send_messages ms

    -- `uploadFileFn`
    unfoldable pub upload_file : FileType → Visit → Io S (Unit {0})
    unfolding calc_hash file_messages send_divided
    upload_file t v = elim v.failed [
      | some e ↦ fail e
      | none ↦ if v.is_dir || not (ext v.path == codes ".yang") then pure tt else do
        b ← lift (read_file v.path)
        h ← lift (calc_hash os method b)
        send_divided (chunk_message t v.path []) (file_messages os size t v.path h b)
    ]

    -- `filepath.Walk` with that callback.
    unfoldable pub upload_visits : FileType → List Visit → Io S (Unit {0})
    unfolding upload_file
    upload_visits t [] = pure tt
    upload_visits t (v ∷ vs) = upload_file t v >> upload_visits t vs

    -- What the goroutine calls, from the first message to the last.
    unfoldable pub calls : SchemaName → (excludes modules dirs : List Str) → List (Io S (Unit {0}))
    unfolding upload_visits
    calls n excludes modules dirs =
        send (create_schema (create_request n [] [] excludes))
        ∷ (map (λ f. upload_visits module_file (visits f)) modules
            ++ (map (λ f. upload_visits dependency (visits f)) dirs ++ send finalize ∷ []))

    unfoldable pub sender : SchemaName → (excludes modules dirs : List Str) → S → Sender × S
    unfolding run calls
    sender n excludes modules dirs s =
        run (calls n excludes modules dirs) (running (record { received = []; held = [] }), s)
