-- ===== src/Server/Upload/Pending.antt =====
-- The file messages on a disk where no call fails: they make the file, fill it, and complete it.
use sdcio_schema_server.Base.{
  ℕ, zero, suc, ◌+◌, ◌≤◌, arith, take, drop, length, length-append, subst, ◌≡◌, ◌≢◌, refl, sym, ap,
  ◌∙◌, Bool, false, Option, none, some, [], ◌∷◌, ◌++◌, append-nil, Str, missing_file_name, str_eq,
  beq_refl, Dict, lookup, insert, remove, lookup-insert, wrong_hash, ok, err, if◌then◌else◌,
}
use sdcio_schema_server.Sdcpb.{HashMethod, FileType, UploadSchemaFile}
use sdcio_schema_server.Config.{is_empty}
use sdcio_schema_server.Server.Io.{
  Io, pure, fail, ◌>>=◌, ◌>>◌, on_error_done, bind_done, bind_failed, ran,
}
use sdcio_schema_server.Server.Os.{Os, opened_at, overwritten, IsHash, IsWorking}
use sdcio_schema_server.Server.Upload.{
  Session, new_hash, listed, create_file_with_dir, open_file, with_file, write_contents, check_hash,
  finish_file, path_for, receive_file, close_and_clean,
}
use sdcio_schema_server.Server.Upload.Working.{check_hash-right, check_hash-wrong}

take-length_all : (s : Str) → take (length s) s ≡ s
take-length_all [] = refl
take-length_all (c ∷ s) = ap (λ u. c ∷ u) (take-length_all s)

drop_beyond : (n : ℕ) (s : Str) → length s ≤ n → drop n s ≡ []
drop_beyond zero [] h = refl
drop_beyond (suc n) [] h = refl
drop_beyond zero (c ∷ s) h = absurd (omega arith)
drop_beyond (suc n) (c ∷ s) h = drop_beyond n s (omega arith)

overwritten-end : (s t : Str) → overwritten s (length s) t ≡ s ++ t
overwritten-end s t =
    cc (take-length_all s, drop_beyond (length s + length t) s (omega arith), append-nil t)

module _ (os : Os) (hash : IsHash os) (disk : IsWorking os) where
  -- A file that is written to its end.
  abbrev pub Holds : os.Disk → os.File → Str → Type 0
  Holds d f s = disk.state d f ≡ opened_at s (length s)

  Holds-write :
      (f : os.File) (s t : Str) (d : os.Disk) → Holds d f s → Holds (os.write f t d).1 f (s ++ t)
  Holds-write f s t d st =
      (disk.write_ok f t s (length s) d st).1 ∙ cc (overwritten-end s t, length-append s t)

  module _ (schemas_dir dirname : Str) where
    -- A message for a file that is pending, named by its path.
    write_contents_done :
        (f : os.File) (t s : Str) (d : os.Disk)
        → Holds d f t
        → (d' : os.Disk) × (write_contents os schemas_dir dirname f s d ≡ (ok tt, d'))
          × Holds d' f (t ++ s)
    unfolding write_contents
    write_contents_done f t [] d st = (d, refl, subst (Holds d f) (sym (append-nil t)) st)
    write_contents_done f t (c ∷ s) d st = (
      (os.write f (c ∷ s) d).1,
      on_error_done (os.write f (c ∷ s)) (close_and_clean os schemas_dir dirname f) d tt
          (disk.write_ok f (c ∷ s) t (length t) d st).0,
      Holds-write f t (c ∷ s) d st,
    )

    open_pending :
        (handled : Dict Str os.File) (p : Str) (f : os.File) (d : os.Disk)
        → lookup p handled ≡ some f
        → open_file os handled p d ≡ (ok f, d)
    unfolding open_file
    open_pending handled p f d e = rw (e, open_file)

    with_file_pending :
        (handled : Dict Str os.File) (p : Str) (f : os.File)
        → lookup p handled ≡ some f
        → with_file os handled p f ≡ handled
    unfolding with_file
    with_file_pending handled p f e = rw (e, with_file)

    receive_file-opened :
        (up : Session os) (m : UploadSchemaFile) (f : os.File) (d d1 : os.Disk)
        → is_empty m.file_name ≡ false
        → open_file os up.handled (path_for os schemas_dir dirname m.file_name) d ≡ (ok f, d1)
        → receive_file os schemas_dir dirname up m d
          ≡ (write_contents os schemas_dir dirname f m.contents
                >> finish_file os schemas_dir dirname up m
                    (path_for os schemas_dir dirname m.file_name)
                    f)
              d1
    unfolding receive_file
    receive_file-opened up m f d d1 named opened =
        let p = path_for os schemas_dir dirname m.file_name in
        let rest = λ (g : os.File).
          write_contents os schemas_dir dirname g m.contents
          >> finish_file os schemas_dir dirname up m p g in
        ap
          (λ (b : Bool).
            (if b then fail missing_file_name else (open_file os up.handled p >>= rest)) d)
          named
        ∙ bind_done (open_file os up.handled p) rest d d1 f opened

    receive_file-finish_file :
        (up : Session os) (m : UploadSchemaFile) (f : os.File) (d d1 d2 : os.Disk)
        → is_empty m.file_name ≡ false
        → open_file os up.handled (path_for os schemas_dir dirname m.file_name) d ≡ (ok f, d1)
        → write_contents os schemas_dir dirname f m.contents d1 ≡ (ok tt, d2)
        → receive_file os schemas_dir dirname up m d
          ≡ finish_file os schemas_dir dirname up m
              (path_for os schemas_dir dirname m.file_name)
              f
              d2
    receive_file-finish_file up m f d d1 d2 named opened wrote =
        receive_file-opened up m f d d1 named opened
        ∙ bind_done (write_contents os schemas_dir dirname f m.contents)
            (λ u.
              finish_file os schemas_dir dirname up m (path_for os schemas_dir dirname m.file_name)
                f)
            d1 d2 tt wrote

    pub receive_file-chunk :
        (up : Session os) (t : FileType) (name b s : Str) (f : os.File) (d : os.Disk)
        → is_empty name ≡ false
        → lookup (path_for os schemas_dir dirname name) up.handled ≡ some f
        → Holds d f b
        → (d' : os.Disk) × (receive_file os schemas_dir dirname up
              (record { file_name = name; file_type = t; contents = s; hash = none })
              d
            ≡ (ok up, d'))
          × Holds d' f (b ++ s)
    unfolding finish_file
    receive_file-chunk up t name b s f d named e st =
        let (d', wrote, same) = write_contents_done f b s d st in
        (
          d',
          receive_file-finish_file up _ f d d d' named (open_pending up.handled _ f d e) wrote
              ∙ ap (λ (x : Dict Str os.File). (ok (record up { handled = x }), d'))
                  (with_file_pending up.handled _ f e),
          same,
        )

    pub receive_file-hash :
        (up : Session os) (t : FileType) (name : Str) (m : HashMethod) (h : os.Hasher) (b : Str)
        (f : os.File) (d : os.Disk)
        → is_empty name ≡ false
        → lookup (path_for os schemas_dir dirname name) up.handled ≡ some f
        → Holds d f b
        → new_hash os m ≡ some h
        → (d' : os.Disk) × (receive_file os schemas_dir dirname up
              (record {
                file_name = name;
                file_type = t;
                contents = [];
                hash = some (record { method = m; hash = hash.digest m b });
              })
              d
            ≡ (
              ok (record {
                config = listed os t (path_for os schemas_dir dirname name) up.config;
                handled = remove (path_for os schemas_dir dirname name) up.handled;
              }),
              d',
            ))
          × ((disk.state d' f).bytes ≡ b)
    unfolding finish_file write_contents
    receive_file-hash up t name m h b f d named e st k =
        let (d', checked, same) =
          check_hash-right os hash disk schemas_dir dirname f m h b (length b) d k st in
        (
          d',
          receive_file-finish_file up _ f d d d named (open_pending up.handled _ f d e) refl
              ∙ (bind_done (check_hash os schemas_dir dirname f _) _ d d' tt checked
                  ∙ ap
                      (λ (x : Dict Str os.File). (
                        ok (record {
                          config = listed os t (path_for os schemas_dir dirname name) up.config;
                          handled = remove (path_for os schemas_dir dirname name) x;
                        }),
                        d',
                      ))
                      (with_file_pending up.handled _ f e)),
          same,
        )

    with_file_new :
        (handled : Dict Str os.File) (p : Str) (f : os.File)
        → lookup p handled ≡ none
        → with_file os handled p f ≡ insert p f handled
    unfolding with_file
    with_file_new handled p f e = rw (e, with_file)

    pub lookup-inserted :
        (handled : Dict Str os.File) (p : Str) (f : os.File)
        → lookup p (insert p f handled) ≡ some f
    lookup-inserted handled p f =
        lookup-insert p p f handled
        ∙ ap (λ (b : Bool). if b then some f else lookup p handled) (beq_refl p)

    open_new :
        (handled : Dict Str os.File) (p : Str) (d : os.Disk)
        → lookup p handled ≡ none
        → (f : os.File) × (d1 : os.Disk) × (open_file os handled p d ≡ (ok f, d1)) × Holds d1 f []
    unfolding open_file create_file_with_dir
    open_new handled p d e =
        let d0 = (os.mkdir_all (os.dir_of p) d).1 in
        let (f, created, new) = disk.create_ok p d0 in
        (
          f,
          (os.create p d0).1,
          ap
                (λ (o : Option os.File).
                  (elim o as (λ x. Io os.Disk os.File) [
                    | some g ↦ pure g
                    | none ↦ create_file_with_dir os p
                  ])
                    d)
                e
              ∙ (bind_done (os.mkdir_all (os.dir_of p)) (λ u. os.create p) d d0 tt
                    (ran (os.mkdir_all (os.dir_of p)) d tt (disk.mkdir_ok (os.dir_of p) d))
                  ∙ ran (os.create p) d0 f created),
          new,
        )

    finish_file-insert :
        (up : Session os) (m : UploadSchemaFile) (p : Str) (f : os.File)
        → lookup p up.handled ≡ none
        → finish_file os schemas_dir dirname up m p f
          ≡ finish_file os schemas_dir dirname (record up { handled = insert p f up.handled }) m p f
    unfolding finish_file
    finish_file-insert up m p f e = ap finished handles
      where
        finished : Dict Str os.File → Io os.Disk (Session os)
        finished x = elim m.hash [
          | none ↦ pure (record up { handled = x })
          | some h ↦
              check_hash os schemas_dir dirname f h
              >> pure (record { config = listed os m.file_type p up.config; handled = remove p x })
        ]

        handles : with_file os up.handled p f ≡ with_file os (insert p f up.handled) p f
        handles =
            with_file_new up.handled p f e
            ∙ sym (with_file_pending (insert p f up.handled) p f (lookup-inserted up.handled p f))

    -- The first message of a file makes the file; from there on it is as if the file had been pending.
    pub receive_file-create :
        (up : Session os) (m : UploadSchemaFile) (d : os.Disk)
        → is_empty m.file_name ≡ false
        → lookup (path_for os schemas_dir dirname m.file_name) up.handled ≡ none
        → (f : os.File) × (d1 : os.Disk) × Holds d1 f []
          × (receive_file os schemas_dir dirname up m d
              ≡ receive_file os schemas_dir dirname
                  (record up {
                    handled = insert (path_for os schemas_dir dirname m.file_name) f up.handled;
                  })
                  m
                  d1)
    receive_file-create up m d named e =
        let p = path_for os schemas_dir dirname m.file_name in
        let (f, d1, opened, new) = open_new up.handled p d e in
        let next = record up { handled = insert p f up.handled } in
        (
          f,
          d1,
          new,
          receive_file-opened up m f d d1 named opened
              ∙ (ap
                    (λ (g : Io os.Disk (Session os)).
                      (write_contents os schemas_dir dirname f m.contents >> g) d1)
                    (finish_file-insert up m p f e)
                  ∙ sym (
                      receive_file-opened next m f d1 d1 named
                        (open_pending next.handled p f d1 (lookup-inserted up.handled p f)))),
        )

    pub receive_file-wrong :
        (up : Session os) (t : FileType) (name : Str) (m : HashMethod) (h : os.Hasher)
        (given b : Str) (f : os.File) (d : os.Disk)
        → is_empty name ≡ false
        → lookup (path_for os schemas_dir dirname name) up.handled ≡ some f
        → Holds d f b
        → new_hash os m ≡ some h
        → hash.digest m b ≢ given
        → (receive_file os schemas_dir dirname up
            (record {
              file_name = name;
              file_type = t;
              contents = [];
              hash = some (record { method = m; hash = given });
            })
            d).0
          ≡ err wrong_hash
    unfolding finish_file write_contents
    receive_file-wrong up t name m h given b f d named e st k differ =
        ap (λ r. r.0)
          (receive_file-finish_file up _ f d d d named (open_pending up.handled _ f d e) refl)
        ∙ bind_failed (check_hash os schemas_dir dirname f _) _ d wrong_hash (
            check_hash-wrong os hash disk schemas_dir dirname f m h given b (length b) d k st
              differ)
