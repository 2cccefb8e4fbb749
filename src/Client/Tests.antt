-- ===== src/Client/Tests.antt =====
-- The theorems on the upload command at concrete files.
use sdcio_schema_server.Base.{
  ℕ, ◌≤◌, ◌≡◌, ◌↔◌, inl, arith, ap, refl, false, none, some, List, [], ◌∷◌, ◌++◌, All, Str, codes,
  length, ok, err, external, wrong_hash, lookup,
}
use sdcio_schema_server.Sdcpb.{sha256, module_file, UploadSchemaRequest, finalize}
use sdcio_schema_server.Store.{config_of}
use sdcio_schema_server.Store.Sample.{srl_name}
use sdcio_schema_server.Server.Io.{Io}
use sdcio_schema_server.Server.Os.{concat}
use sdcio_schema_server.Server.Sample.{os, os-IsHash, os-IsWorking, at_path}
use sdcio_schema_server.Server.Upload.{Session, listed, path_for, receive}
use sdcio_schema_server.Client.Upload.{Files, chunks, calc_hash, file_messages}
use sdcio_schema_server.Client.Upload.Chunks.{chunks-concat, chunks_zero_endless}
use sdcio_schema_server.Client.Upload.Transfer.{receive-file_messages, receive-file_messages_other}
use sdcio_schema_server.Client.Upload.Sender.{blocked, calls, sender}
use sdcio_schema_server.Client.Upload.Sender.Blocked.{failures, sender-blocked}

abbrev bytes : Str
bytes = codes "module"

-- Two chunks of four and two bytes.
module_chunks : chunks 6 4 0 bytes ≡ some (codes "modu" ∷ (codes "le" ∷ []))
unfolding chunks
module_chunks = refl

chunks-concat_example :
    (cs : List Str) × (chunks 6 4 0 bytes ≡ some cs)
    × (concat cs ≡ bytes)
    × All (λ c. (1 ≤ length c) × (length c ≤ 4)) cs
chunks-concat_example = chunks-concat 4 bytes (omega arith)

chunks_zero_endless_example : chunks 7 0 0 bytes ≡ none
chunks_zero_endless_example = chunks_zero_endless 7 bytes (omega arith)

abbrev fresh : Session os
fresh = record { config = config_of srl_name [] [] []; handled = [] }

receive-file_messages_example :
    (h : Str) × (calc_hash os (codes "md5") bytes ≡ ok h)
    × (ms : List UploadSchemaRequest) × (file_messages os 4 module_file (codes "a.yang") h bytes
        ≡ some ms)
    × (f : Str) × (d' : os.Disk) × (receive os
          (codes "s")
          (codes "d")
          fresh
          (ms ++ finalize ∷ [])
          (external [])
          []
        ≡ receive os
            (codes "s")
            (codes "d")
            (record fresh {
              config =
                  listed os module_file
                    (path_for os (codes "s") (codes "d") (codes "a.yang"))
                    fresh.config;
            })
            (finalize ∷ [])
            (external [])
            d')
    × ((at_path d' f).bytes ≡ bytes)
unfolding lookup
receive-file_messages_example =
    receive-file_messages os os-IsHash os-IsWorking (codes "s") (codes "d") module_file
      (codes "a.yang") refl 4 bytes fresh (finalize ∷ []) (external []) [] (omega arith) refl

abbrev first_code : Str → ℕ
first_code [] = 0
first_code (c ∷ s) = c

receive-file_messages_other_example :
    (h : Str) × (calc_hash os (codes "sha256") bytes ≡ ok h)
    × (ms : List UploadSchemaRequest) × (file_messages os 4 module_file (codes "a.yang") h bytes
        ≡ some ms)
    × ((receive os (codes "s") (codes "d") fresh (ms ++ finalize ∷ []) (external []) []).0
        ≡ err wrong_hash)
unfolding lookup
receive-file_messages_other_example =
    receive-file_messages_other os os-IsHash os-IsWorking (codes "s") (codes "d") module_file
      (codes "a.yang") refl sha256 (codes "sha256") 4 bytes fresh (finalize ∷ []) (external []) []
      (inl (refl, refl)) (omega arith) refl (λ e. omega (arith, ap first_code e))

-- No file can be read, and the stream takes every message.
abbrev unreadable : Files
unreadable = record {
  visits = λ f. record { path = f; failed = some (external f); is_dir = false } ∷ [];
  ext = λ p. codes ".yang";
  read_file = λ p. err (external p);
}

abbrev taken : UploadSchemaRequest → Io (List UploadSchemaRequest) (Unit {0})
taken m s = (ok tt, s ++ m ∷ [])

abbrev three : List Str
three = codes "a" ∷ (codes "b" ∷ (codes "c" ∷ []))

sender-blocked_example :
    ((sender os unreadable taken 4 9 (codes "md5") srl_name [] three [] []).0 ≡ blocked)
    ↔ (3 ≤ failures (calls os unreadable taken 4 9 (codes "md5") srl_name [] three []) [])
sender-blocked_example =
    sender-blocked os unreadable taken 4 9 (codes "md5") srl_name [] three [] []

-- Three files that are not there are enough.
failures-sender : failures (calls os unreadable taken 4 9 (codes "md5") srl_name [] three []) [] ≡ 3
unfolding failures calls
failures-sender = refl
