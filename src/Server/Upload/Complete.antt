-- ===== src/Server/Upload/Complete.antt =====
-- What an upload that was finalized has recorded: the schema's names as they were, and every file
-- that was sent.
use sdcio_schema_server.Base.{
  ◌≡◌, ◌≢◌, refl, subst, ◌∙◌, Bool, true, false, ◌||◌, Option, none, some, List, [], ◌∷◌, ◌++◌, Str,
  str_eq, ◌==◌, Dict, lookup, remove, lookup-insert, lookup-remove, All, Error, ok, Bool-cases,
  Option-cases, inl, inr, beq_refl, arith, pending_files, unexpected_message, if◌then◌else◌,
}
use sdcio_schema_server.Sdcpb.{
  Hash, FileType, module_file, dependency, other_file, UploadSchemaFile, UploadSchemaRequest,
  create_schema, schema_file, finalize, empty_request,
}
use sdcio_schema_server.Config.{SchemaConfig, is_empty}
use sdcio_schema_server.Schema.Container.{in_set}
use sdcio_schema_server.Store.{key_in}
use sdcio_schema_server.Server.Os.{Os}
use sdcio_schema_server.Server.Upload.{
  Session, listed, open_file, with_file, check_hash, write_contents, finish_file, receive_file,
  receive, clean_schema_dir, path_for,
}
use sdcio_schema_server.Server.Upload.Always.{
  Always, Always-pure, Always-fail, Always-bind, Always-then, Always-if, Always-imply,
  Always-refused,
}

-- A path that the configuration lists.
abbrev pub is_listed : SchemaConfig → Str → Bool
is_listed c p = in_set p c.files || in_set p c.directories

abbrev is_found {ℓ} : {A : Type ℓ} → Option A → Bool
is_found none = false
is_found (some a) = true

in_set-append :
    (p : Str) (xs : List Str) (q : Str) → in_set p (xs ++ q ∷ []) ≡ (in_set p xs || q == p)
unfolding in_set
in_set-append p [] q = ground arith
in_set-append p (x ∷ xs) q = ground (arith, in_set-append p xs q)

module _ (os : Os) where
  -- A path that is pending or listed.
  abbrev known : Session os → Str → Bool
  known up p = is_found (lookup p up.handled) || is_listed up.config p

  lookup-with_file :
      (h : Dict Str os.File) (p q : Str) (f : os.File)
      → is_found (lookup q (with_file os h p f)) ≡ (p == q || is_found (lookup q h))
  unfolding with_file
  lookup-with_file h p q f = elim (Option-cases (lookup p h)) [
    | inl e ↦ rw (e, with_file, lookup-insert p q f h) (found_if (p == q) (lookup q h))
    | inr (g, e) ↦ rw (e, with_file) (ground (arith, str_eq.is_same_iff p q))
  ]
    where
      found_if :
          (b : Bool) (o : Option os.File) → is_found (if b then some f else o) ≡ (b || is_found o)
      found_if true o = refl
      found_if false o = refl

  -- What one file message does to the session: the names stay, and no path is forgotten if the file
  -- is a module or a dependency.
  record Grown (up : Session os) (t : FileType) (p : Str) (next : Session os) : Type 0 where
    names : key_in next.config ≡ key_in up.config
    keeps : t ≢ other_file → (q : Str) → known up q ≡ true → known next q ≡ true
    has : t ≢ other_file → known next p ≡ true

  Grown-pending :
      (up : Session os) (t : FileType) (p : Str) (f : os.File)
      → Grown up t p (record up { handled = with_file os up.handled p f })
  Grown-pending up t p f = record {
    names = refl;
    keeps = λ _ q h. rw (lookup-with_file up.handled p q f) (ground (arith, h));
    has = λ _. rw (lookup-with_file up.handled p p f, beq_refl p);
  }

  in_set_last : (p : Str) (xs : List Str) → in_set p (xs ++ p ∷ []) ≡ true
  in_set_last p xs = rw (in_set-append p xs p, beq_refl p) (ground arith)

  in_set_more : (p q : Str) (xs : List Str) → in_set p xs ≡ true → in_set p (xs ++ q ∷ []) ≡ true
  in_set_more p q xs h = rw (in_set-append p xs q, h)

  listed-names : (t : FileType) (p : Str) (c : SchemaConfig) → key_in (listed os t p c) ≡ key_in c
  listed-names module_file p c = refl
  listed-names dependency p c = refl
  listed-names other_file p c = refl

  is_listed-listed :
      (t : FileType) (p : Str) (c : SchemaConfig)
      → t ≢ other_file
      → is_listed (listed os t p c) p ≡ true
  is_listed-listed module_file p c h = rw (in_set_last p c.files)
  is_listed-listed dependency p c h = rw (in_set_last p c.directories) (ground arith)
  is_listed-listed other_file p c h = absurd (h refl)

  is_listed_kept :
      (t : FileType) (p q : Str) (c : SchemaConfig)
      → is_listed c q ≡ true
      → is_listed (listed os t p c) q ≡ true
  is_listed_kept module_file p q c h = ground (arith, in_set_more q p c.files)
  is_listed_kept dependency p q c h = ground (arith, in_set_more q p c.directories)
  is_listed_kept other_file p q c h = h

  Grown-done :
      (up : Session os) (t : FileType) (p : Str) (f : os.File)
      → Grown up t p (record {
        config = listed os t p up.config;
        handled = remove p (with_file os up.handled p f);
      })
  Grown-done up t p f = record {
    names = listed-names t p up.config;
    keeps = kept;
    has = λ h.
        rw (is_listed-listed t p up.config h)
          (or_true (is_found (lookup p (remove p (with_file os up.handled p f)))));
  }
    where
      or_true : (b : Bool) → (b || true) ≡ true
      or_true true = refl
      or_true false = refl

      kept :
          t ≢ other_file
          → (q : Str) → known up q ≡ true
          → (is_found (lookup q (remove p (with_file os up.handled p f)))
              || is_listed (listed os t p up.config) q)
            ≡ true
      kept h q k = elim (Bool-cases (p == q)) [
        | inl e ↦
            rw
              (subst (λ (r : Str). is_listed (listed os t p up.config) r ≡ true)
                ((str_eq.is_same_iff p q).0 e) (is_listed-listed t p up.config h))
              (or_true _)
        | inr e ↦
            rw
              (
                lookup-remove p q (with_file os up.handled p f),
                e,
                lookup-with_file up.handled p q f,
                e,
              )
              (ground (arith, k, is_listed_kept t p q up.config))
      ]

  module _ (schemas_dir dirname : Str) where
    finish_file-Grown :
        (up : Session os) (m : UploadSchemaFile) (p : Str) (f : os.File)
        → Always (Grown up m.file_type p) (finish_file os schemas_dir dirname up m p f)
    unfolding finish_file
    finish_file-Grown up m p f = by_hash m.hash
      where
        by_hash :
            (o : Option Hash)
            → Always
                (Grown up m.file_type p)
                (finish_file os schemas_dir dirname up (record m { hash = o }) p f)
        by_hash none = Always-pure (Grown up m.file_type p) _ (Grown-pending up m.file_type p f)
        by_hash (some g) =
            Always-then (Grown up m.file_type p) (check_hash os schemas_dir dirname f g) _
              (λ _. Always-pure (Grown up m.file_type p) _ (Grown-done up m.file_type p f))

    receive_file-Grown :
        (up : Session os) (m : UploadSchemaFile)
        → Always
            (Grown up m.file_type (path_for os schemas_dir dirname m.file_name))
            (receive_file os schemas_dir dirname up m)
    unfolding receive_file
    receive_file-Grown up m =
        Always-if _ (is_empty m.file_name) _ _ (λ _. Always-fail _ _)
          (λ _.
            Always-then _ (open_file os up.handled (path_for os schemas_dir dirname m.file_name)) _
              (λ f.
                Always-then _ (write_contents os schemas_dir dirname f m.contents) _
                  (λ _. finish_file-Grown up m (path_for os schemas_dir dirname m.file_name) f)))

    -- The paths that the file messages before the first other message name.
    abbrev pub paths_in : List UploadSchemaRequest → List Str
    paths_in (schema_file m ∷ ms) = path_for os schemas_dir dirname m.file_name ∷ paths_in ms
    paths_in (create_schema r ∷ ms) = []
    paths_in (finalize ∷ ms) = []
    paths_in (empty_request ∷ ms) = []
    paths_in [] = []

    -- Each file is said to be a module or a dependency.
    abbrev pub IsTyped : UploadSchemaRequest → Type 0
    IsTyped (schema_file m) = m.file_type ≢ other_file
    IsTyped (create_schema r) = Unit
    IsTyped finalize = Unit
    IsTyped empty_request = Unit

    record Received (up : Session os) (ms : List UploadSchemaRequest) (done : Session os)
        : Type 0 where
      same_names : key_in done.config ≡ key_in up.config
      all_known : All IsTyped ms → (q : Str) → known up q ≡ true → is_listed done.config q ≡ true
      all_listed : All IsTyped ms → All (λ p. is_listed done.config p ≡ true) (paths_in ms)

    receive-Received :
        (up : Session os) (ms : List UploadSchemaRequest) (end : Error)
        → Always (Received up ms) (receive os schemas_dir dirname up ms end)
    unfolding receive
    receive-Received up [] end = Always-fail _ end
    receive-Received up (create_schema r ∷ ms) end =
        Always-refused _ (clean_schema_dir os schemas_dir dirname) unexpected_message
    receive-Received up (empty_request ∷ ms) end =
        Always-refused _ (clean_schema_dir os schemas_dir dirname) unexpected_message
    receive-Received up (finalize ∷ ms) end = at_end up.handled
      where
        at_end :
            (handled : Dict Str os.File)
            → Always (Received (record up { handled = handled }) (finalize ∷ ms)) (
                receive os schemas_dir dirname
                  (record up { handled = handled })
                  (finalize ∷ ms)
                  end)
        at_end [] =
            Always-pure (Received (record up { handled = [] }) (finalize ∷ ms))
              (record up { handled = [] })
              (record { same_names = refl; all_known = λ _ q k. k; all_listed = λ _. tt })
        at_end (f ∷ fs) =
            Always-refused (Received (record up { handled = f ∷ fs }) (finalize ∷ ms))
              (clean_schema_dir os schemas_dir dirname) pending_files
    receive-Received up (schema_file m ∷ ms) end =
        Always-bind (Grown up m.file_type (path_for os schemas_dir dirname m.file_name)) _ _ _
          (receive_file-Grown up m)
          (λ next g. Always-imply _ _ _ (receive-Received next ms end) (λ done r. record {
            same_names = r.same_names ∙ g.names;
            all_known = λ (typed, rest) q k. r.all_known rest q (g.keeps typed q k);
            all_listed = λ (typed, rest). (r.all_known rest _ (g.has typed), r.all_listed rest);
          }))

    pub receive-names :
        (up : Session os) (ms : List UploadSchemaRequest) (end : Error) (d : os.Disk)
        (done : Session os)
        → (receive os schemas_dir dirname up ms end d).0 ≡ ok done
        → key_in done.config ≡ key_in up.config
    receive-names up ms end d done e = ((receive-Received up ms end).at d done e).same_names

    -- If the loop ends without an error, the configuration lists the path of each file that was sent,
    -- provided each was said to be a module or a dependency.
    pub receive_lists_all :
        (up : Session os) (ms : List UploadSchemaRequest) (end : Error) (d : os.Disk)
        (done : Session os)
        → All IsTyped ms
        → (receive os schemas_dir dirname up ms end d).0 ≡ ok done
        → All (λ p. is_listed done.config p ≡ true) (paths_in ms)
    receive_lists_all up ms end d done h e = ((receive-Received up ms end).at d done e).all_listed h
