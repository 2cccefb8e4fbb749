-- ===== src/Client/Upload/Transfer.antt =====
-- A file on its way: the messages of the client, in the loop of the server.
use sdcio_schema_server.Base.{
  ℕ, ◌≤◌, subst, ◌≡◌, ◌≢◌, ◌⊎◌, inl, inr, refl, sym, ap, ◌∙◌, false, none, some, List, [], ◌∷◌,
  ◌++◌, map, append-nil, append_assoc, Str, codes, str_eq, Dict, lookup, insert, remove,
  remove-insert, Error, ok, err, wrong_hash,
}
use sdcio_schema_server.Sdcpb.{
  HashMethod, md5, sha256, sha512, FileType, UploadSchemaFile, UploadSchemaRequest, schema_file,
}
use sdcio_schema_server.Config.{is_empty}
use sdcio_schema_server.Server.Io.{continue, bind_done, bind_failed}
use sdcio_schema_server.Server.Os.{Os, concat, IsHash, IsWorking}
use sdcio_schema_server.Server.Upload.{Session, listed, path_for, receive_file, receive}
use sdcio_schema_server.Server.Upload.Pending.{
  Holds, receive_file-chunk, receive_file-hash, receive_file-create, receive_file-wrong,
  lookup-inserted,
}
use sdcio_schema_server.Client.Upload.{
  chunk_message, hash_message, hasher_of, calc_hash, file_messages,
}
use sdcio_schema_server.Client.Upload.Chunks.{chunks-concat}

module _ (os : Os) (hash : IsHash os) (disk : IsWorking os) where
  pub calc_hash-digest :
      (method : Str) (m : HashMethod) (h : os.Hasher) (b : Str)
      → hasher_of os method ≡ some h
      → (hash.method h ≡ m) × (hash.fed h ≡ [])
      → calc_hash os method b ≡ ok (hash.digest m b)
  unfolding calc_hash
  calc_hash-digest method m h b known (of_m, new) =
      let (g, e, fed, same) = hash.feed_ok h b in
      rw (known, calc_hash)
        (rw (e, calc_hash)
          (ap ok (
            hash.sum_lem g
            ∙ (ap (λ (n : HashMethod). hash.digest n (hash.fed g)) (same ∙ of_m)
                ∙ ap (hash.digest m) (fed ∙ ap (λ (t : Str). t ++ b) new)))))

  module _ (schemas_dir dirname : Str) (t : FileType) (name : Str)
      (named : is_empty name ≡ false) where
    -- One message, in the loop.
    receive-done :
        (up next : Session os) (m : UploadSchemaFile) (rest : List UploadSchemaRequest)
        (end : Error) (d d' : os.Disk)
        → receive_file os schemas_dir dirname up m d ≡ (ok next, d')
        → receive os schemas_dir dirname up (schema_file m ∷ rest) end d
          ≡ receive os schemas_dir dirname next rest end d'
    unfolding receive
    receive-done up next m rest end d d' e =
        bind_done (receive_file os schemas_dir dirname up m)
          (λ n. receive os schemas_dir dirname n rest end) d d' next e

    receive-chunks :
        (cs : List Str) (up : Session os) (rest : List UploadSchemaRequest) (end : Error)
        (f : os.File) (b : Str) (d : os.Disk)
        → lookup (path_for os schemas_dir dirname name) up.handled ≡ some f
        → Holds os hash disk d f b
        → (d' : os.Disk) × (receive os schemas_dir dirname up
              (map (chunk_message t name) cs ++ rest)
              end
              d
            ≡ receive os schemas_dir dirname up rest end d')
          × Holds os hash disk d' f (b ++ concat cs)
    receive-chunks [] up rest end f b d e st =
        (d, refl, subst (Holds os hash disk d f) (sym (append-nil b)) st)
    receive-chunks (c ∷ cs) up rest end f b d e st =
        let (d1, got, filled) =
          receive_file-chunk os hash disk schemas_dir dirname up t name b c f d named e st in
        let (d2, more, all_) = receive-chunks cs up rest end f (b ++ c) d1 e filled in
        (
          d2,
          receive-done up up _ (map (chunk_message t name) cs ++ rest) end d d1 got ∙ more,
          subst (Holds os hash disk d2 f) (append_assoc b c (concat cs)) all_,
        )

    -- The session when the file is complete.
    abbrev done : Session os → Dict Str os.File → Session os
    done up handled = record {
      config = listed os t (path_for os schemas_dir dirname name) up.config;
      handled = remove (path_for os schemas_dir dirname name) handled;
    }

    receive_pending :
        (cs : List Str) (up : Session os) (rest : List UploadSchemaRequest) (end : Error)
        (f : os.File) (d : os.Disk)
        → lookup (path_for os schemas_dir dirname name) up.handled ≡ some f
        → Holds os hash disk d f []
        → (d' : os.Disk) × (receive os schemas_dir dirname up
              (map (chunk_message t name) cs
                ++ hash_message t name (hash.digest md5 (concat cs)) ∷ rest)
              end
              d
            ≡ receive os schemas_dir dirname (done up up.handled) rest end d')
          × ((disk.state d' f).bytes ≡ concat cs)
    receive_pending cs up rest end f d e new =
        let h = hash.digest md5 (concat cs) in
        let (d1, filled, full) =
          receive-chunks cs up (hash_message t name h ∷ rest) end f [] d e new in
        let (d2, checked, kept) =
          receive_file-hash os hash disk schemas_dir dirname up t name md5 os.new_md5 (concat cs) f
            d1 named e full refl in
        (d2, filled ∙ receive-done up (done up up.handled) _ rest end d1 d2 checked, kept)

    receive-create :
        (up : Session os) (m : UploadSchemaFile) (rest : List UploadSchemaRequest) (end : Error)
        (d : os.Disk)
        → is_empty m.file_name ≡ false
        → lookup (path_for os schemas_dir dirname m.file_name) up.handled ≡ none
        → (f : os.File) × (d1 : os.Disk) × Holds os hash disk d1 f []
          × (receive os schemas_dir dirname up (schema_file m ∷ rest) end d
              ≡ receive os schemas_dir dirname
                  (record up {
                    handled = insert (path_for os schemas_dir dirname m.file_name) f up.handled;
                  })
                  (schema_file m ∷ rest)
                  end
                  d1)
    unfolding receive
    receive-create up m rest end d h e =
        let (f, d1, new, same) = receive_file-create os hash disk schemas_dir dirname up m d h e in
        (f, d1, new, ap (λ r. continue r (λ n. receive os schemas_dir dirname n rest end)) same)

    receive_started :
        (cs : List Str) (up : Session os) (h : Str) (rest : List UploadSchemaRequest) (end : Error)
        (d : os.Disk)
        → lookup (path_for os schemas_dir dirname name) up.handled ≡ none
        → (f : os.File) × (d1 : os.Disk) × Holds os hash disk d1 f []
          × (receive os schemas_dir dirname up
                (map (chunk_message t name) cs ++ hash_message t name h ∷ rest)
                end
                d
              ≡ receive os schemas_dir dirname
                  (record up {
                    handled = insert (path_for os schemas_dir dirname name) f up.handled;
                  })
                  (map (chunk_message t name) cs ++ hash_message t name h ∷ rest)
                  end
                  d1)
    receive_started [] up h rest end d e = receive-create up _ rest end d named e
    receive_started (c ∷ cs) up h rest end d e =
        receive-create up _ (map (chunk_message t name) cs ++ hash_message t name h ∷ rest) end d
          named e

    receive_whole :
        (cs : List Str) (up : Session os) (rest : List UploadSchemaRequest) (end : Error)
        (d : os.Disk)
        → lookup (path_for os schemas_dir dirname name) up.handled ≡ none
        → (f : os.File) × (d' : os.Disk) × (receive os schemas_dir dirname up
              (map (chunk_message t name) cs
                ++ hash_message t name (hash.digest md5 (concat cs)) ∷ rest)
              end
              d
            ≡ receive os schemas_dir dirname
                (record up {
                  config = listed os t (path_for os schemas_dir dirname name) up.config;
                })
                rest
                end
                d')
          × ((disk.state d' f).bytes ≡ concat cs)
    receive_whole cs up rest end d e =
        let p = path_for os schemas_dir dirname name in
        let (f, d1, new, start) =
          receive_started cs up (hash.digest md5 (concat cs)) rest end d e in
        let next = record up { handled = insert p f up.handled } in
        let (d2, got, full) =
          receive_pending cs next rest end f d1
            (lookup-inserted os hash disk schemas_dir dirname up.handled p f) new in
        (
          f,
          d2,
          start
              ∙ (got
                  ∙ ap
                      (λ (x : Dict Str os.File).
                        receive os schemas_dir dirname
                          (record { config = listed os t p up.config; handled = x }) rest end d2)
                      (remove-insert p f up.handled e)),
          full,
        )

    -- A file that the client sends with md5 arrives, whatever the bytes and the chunk size, if that is
    -- one or more: when the server has read the messages of the file, it has a file with the same
    -- bytes, lists the path, and goes on with the next messages. The disk and the hashes of the server
    -- work, and the path was not pending.
    pub receive-file_messages :
        (size : ℕ) (b : Str) (up : Session os) (rest : List UploadSchemaRequest) (end : Error)
        (d : os.Disk)
        → 1 ≤ size
        → lookup (path_for os schemas_dir dirname name) up.handled ≡ none
        → (h : Str) × (calc_hash os (codes "md5") b ≡ ok h)
          × (ms : List UploadSchemaRequest) × (file_messages os size t name h b ≡ some ms)
          × (f : os.File) × (d' : os.Disk) × (receive os schemas_dir dirname up (ms ++ rest) end d
              ≡ receive os schemas_dir dirname
                  (record up {
                    config = listed os t (path_for os schemas_dir dirname name) up.config;
                  })
                  rest
                  end
                  d')
          × ((disk.state d' f).bytes ≡ b)
    unfolding file_messages
    receive-file_messages size b up rest end d positive e =
        let (cs, divided, same, small) = chunks-concat size b positive in
        let (f, d', got, full) = receive_whole cs up rest end d e in
        (
          hash.digest md5 b,
          calc_hash-digest (codes "md5") md5 os.new_md5 b refl hash.md5_new,
          map (chunk_message t name) cs ++ hash_message t name (hash.digest md5 b) ∷ [],
          rw (divided, file_messages) refl,
          f,
          d',
          ap (λ (ms : List UploadSchemaRequest). receive os schemas_dir dirname up ms end d)
                (append_assoc (map (chunk_message t name) cs) _ rest)
              ∙ (ap
                    (λ (s : Str).
                      receive os schemas_dir dirname up
                        (map (chunk_message t name) cs
                          ++ hash_message t name (hash.digest md5 s) ∷ rest)
                        end d)
                    (sym same)
                  ∙ got),
          full ∙ same,
        )

    receive-refused :
        (up : Session os) (m : UploadSchemaFile) (rest : List UploadSchemaRequest) (end : Error)
        (d : os.Disk) (e : Error)
        → (receive_file os schemas_dir dirname up m d).0 ≡ err e
        → (receive os schemas_dir dirname up (schema_file m ∷ rest) end d).0 ≡ err e
    unfolding receive
    receive-refused up m rest end d e h =
        bind_failed (receive_file os schemas_dir dirname up m)
          (λ n. receive os schemas_dir dirname n rest end) d e h

    receive_other :
        (cs : List Str) (h : Str) (up : Session os) (rest : List UploadSchemaRequest) (end : Error)
        (d : os.Disk)
        → lookup (path_for os schemas_dir dirname name) up.handled ≡ none
        → hash.digest md5 (concat cs) ≢ h
        → (receive os schemas_dir dirname up
            (map (chunk_message t name) cs ++ hash_message t name h ∷ rest)
            end
            d).0
          ≡ err wrong_hash
    receive_other cs h up rest end d e wrong =
        let p = path_for os schemas_dir dirname name in
        let (f, d1, new, start) = receive_started cs up h rest end d e in
        let next = record up { handled = insert p f up.handled } in
        let pending = lookup-inserted os hash disk schemas_dir dirname up.handled p f in
        let (d2, filled, full) =
          receive-chunks cs next (hash_message t name h ∷ rest) end f [] d1 pending new in
        ap (λ r. r.0) (start ∙ filled)
        ∙ receive-refused next _ rest end d2 wrong_hash (
            receive_file-wrong os hash disk schemas_dir dirname next t name md5 os.new_md5 h
              (concat cs) f d2 named pending full refl wrong)

    -- A file that the client sends with sha256 or sha512 is refused for its hash, on a disk and with
    -- hashes that work, unless the hash is by chance the md5 hash of the file.
    pub receive-file_messages_other :
        (m : HashMethod) (method : Str) (size : ℕ) (b : Str) (up : Session os)
        (rest : List UploadSchemaRequest) (end : Error) (d : os.Disk)
        → ((method ≡ codes "sha256") × (m ≡ sha256)) ⊎ ((method ≡ codes "sha512") × (m ≡ sha512))
        → 1 ≤ size
        → lookup (path_for os schemas_dir dirname name) up.handled ≡ none
        → hash.digest md5 b ≢ hash.digest m b
        → (h : Str) × (calc_hash os method b ≡ ok h)
          × (ms : List UploadSchemaRequest) × (file_messages os size t name h b ≡ some ms)
          × ((receive os schemas_dir dirname up (ms ++ rest) end d).0 ≡ err wrong_hash)
    unfolding file_messages
    receive-file_messages_other m method size b up rest end d which positive e differ =
        let (cs, divided, same, small) = chunks-concat size b positive in
        (
          hash.digest m b,
          calculated which,
          map (chunk_message t name) cs ++ hash_message t name (hash.digest m b) ∷ [],
          rw (divided, file_messages) refl,
          ap (λ (ms : List UploadSchemaRequest). (receive os schemas_dir dirname up ms end d).0)
                (append_assoc (map (chunk_message t name) cs) _ rest)
              ∙ receive_other cs (hash.digest m b) up rest end d e
                  (λ j. differ (ap (hash.digest md5) (sym same) ∙ j)),
        )
      where
        calculated :
            ((method ≡ codes "sha256") × (m ≡ sha256)) ⊎ ((method ≡ codes "sha512") × (m ≡ sha512))
            → calc_hash os method b ≡ ok (hash.digest m b)
        calculated (inl (named_so, is)) =
            rw (named_so, is)
              (calc_hash-digest (codes "sha256") sha256 os.new_sha256 b refl hash.sha256_new)
        calculated (inr (named_so, is)) =
            rw (named_so, is)
              (calc_hash-digest (codes "sha512") sha512 os.new_sha512 b refl hash.sha512_new)
