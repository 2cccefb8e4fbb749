-- ===== src/Server/Tests.antt =====
-- The theorems on uploads at concrete messages.
use sdcio_schema_server.Base.{
  ◌≡◌, arith, refl, true, false, ◌||◌, none, some, List, [], ◌∷◌, All, codes, ok, external,
}
use sdcio_schema_server.Sdcpb.{
  md5, module_file, dependency, UploadSchemaRequest, schema_file, finalize, create_schema,
}
use sdcio_schema_server.Store.{key_beq, request_key, create_request, config_of}
use sdcio_schema_server.Store.Keys.Injective.{IsSeparable}
use sdcio_schema_server.Store.Sample.{host, annotate_none, srl_name}
use sdcio_schema_server.Store.Mem.{new, has_schema}
use sdcio_schema_server.Store.Interface.Memory.{memory, memory-IsStore}
use sdcio_schema_server.Server.Sample.{os, join_slash, without}
use sdcio_schema_server.Server.Upload.{Session, receive}
use sdcio_schema_server.Server.Upload.Complete.{is_listed, paths_in, receive_lists_all}
use sdcio_schema_server.Server.Rpcs.{upload_schema}
use sdcio_schema_server.Server.Rpcs.Uploaded.{has_schema-upload_schema}

-- A module in two parts and a dependency in one.
abbrev parts : List UploadSchemaRequest
parts =
    schema_file (record {
      file_name = codes "a.yang";
      file_type = module_file;
      contents = codes "mod";
      hash = none;
    })
    ∷ (schema_file (record {
      file_name = codes "b.yang";
      file_type = dependency;
      contents = codes "x";
      hash = some (record { method = md5; hash = codes "1x" });
    })
        ∷ (schema_file (record {
          file_name = codes "a.yang";
          file_type = module_file;
          contents = codes "ule";
          hash = some (record { method = md5; hash = codes "1module" });
        })
            ∷ (finalize ∷ [])))

abbrev fresh : Session os
fresh = record { config = config_of srl_name [] [] []; handled = [] }

abbrev after : Session os
after = record {
  config = config_of srl_name (codes "s/d/a.yang" ∷ []) (codes "s/d/b.yang" ∷ []) [];
  handled = [];
}

parts_received : (receive os (codes "s") (codes "d") fresh parts (external []) []).0 ≡ ok after
unfolding receive join_slash
parts_received = refl

receive_lists_all_example :
    All (λ p. is_listed after.config p ≡ true) (paths_in os (codes "s") (codes "d") parts)
receive_lists_all_example =
    receive_lists_all os (codes "s") (codes "d") fresh parts (external []) [] after
      ((λ e. cc), ((λ e. cc), ((λ e. cc), (tt, tt)))) parts_received

srl-IsSeparable : IsSeparable (request_key srl_name)
srl-IsSeparable = (omega arith, omega arith)

abbrev upload : List UploadSchemaRequest
upload = create_schema (create_request srl_name [] [] []) ∷ parts

upload_stored :
    (upload_schema os
      (λ d. host)
      (memory host annotate_none)
      annotate_none
      (codes "s")
      upload
      (external [])
      (new, [])).0
    ≡ ok tt
unfolding upload_schema join_slash has_schema without
upload_stored = refl

has_schema-upload_schema_example :
    ((memory host annotate_none).has_schema new (request_key srl_name) ≡ false)
    × ((memory host annotate_none).has_schema
          (upload_schema os
            (λ d. host)
            (memory host annotate_none)
            annotate_none
            (codes "s")
            upload
            (external [])
            (new, [])).1.0
          (request_key srl_name)
        ≡ (key_beq (request_key srl_name) (request_key srl_name)
            || (memory host annotate_none).has_schema new (request_key srl_name)))
has_schema-upload_schema_example =
    has_schema-upload_schema os (λ d. host) (memory host annotate_none) annotate_none (codes "s")
      key_beq (memory-IsStore host annotate_none) (create_request srl_name [] [] []) parts
      (external []) new [] (request_key srl_name) srl-IsSeparable srl-IsSeparable upload_stored
