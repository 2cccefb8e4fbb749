-- ===== src/Server/Upload/Working.antt =====
-- The check of a file's hash, on a disk where no call fails.
use sdcio_schema_server.Base.{
  ℕ, length, ◌≡◌, ◌≢◌, Bool-cases, inl, inr, refl, sym, ap, subst, ◌∙◌, Bool, false, Option, none,
  some, List, [], ◌∷◌, ◌++◌, append-nil, append_assoc, Str, str_eq, ◌==◌, beq_refl, wrong_hash,
  Result, ok, err, if◌then◌else◌,
}
use sdcio_schema_server.Sdcpb.{HashMethod, md5, sha256, sha512, unspecified, other_method}
use sdcio_schema_server.Server.Io.{fail, ignore, ◌>>=◌, ◌>>◌, on_error, on_error_done, bind_done}
use sdcio_schema_server.Server.Os.{Os, concat, Handle, opened_at, IsHash, IsWorking}
use sdcio_schema_server.Server.Upload.{
  new_hash, hash_reads, sum_reads, calc_hash, check_hash, close_and_clean,
}

beq_no : (s t : Str) → s ≢ t → s == t ≡ false
beq_no s t h = elim (Bool-cases (s == t)) [
  | inl e ↦ absurd (h ((str_eq.is_same_iff s t).0 e))
  | inr e ↦ e
]

module _ (os : Os) (hash : IsHash os) (disk : IsWorking os) where
  hash_reads_all :
      (h : os.Hasher) (ss : List Str)
      → (g : os.Hasher) × (hash_reads os h ss none ≡ ok g)
        × (hash.fed g ≡ hash.fed h ++ concat ss)
        × (hash.method g ≡ hash.method h)
  unfolding hash_reads
  hash_reads_all h [] = (h, refl, sym (append-nil _), refl)
  hash_reads_all h (s ∷ ss) =
      let (g, e, fed, same) = hash.feed_ok h s in
      let (i, e', fed', same') = hash_reads_all g ss in
      (
        i,
        rw (e, hash_reads) e',
        fed' ∙ (ap (λ (t : Str). t ++ concat ss) fed ∙ append_assoc (hash.fed h) s (concat ss)),
        same' ∙ same,
      )

  some_eq : {g h : os.Hasher} → ◌≡◌ {A = Option os.Hasher} (some g) (some h) → g ≡ h
  some_eq e = cc

  -- The methods that the server knows have a hash, which starts empty.
  new_hash_lem :
      (m : HashMethod) (h : os.Hasher)
      → new_hash os m ≡ some h
      → (hash.method h ≡ m) × (hash.fed h ≡ [])
  new_hash_lem md5 h e = (
    subst (λ (g : os.Hasher). hash.method g ≡ md5) (some_eq e) hash.md5_new.0,
    subst (λ (g : os.Hasher). hash.fed g ≡ []) (some_eq e) hash.md5_new.1,
  )
  new_hash_lem sha256 h e = (
    subst (λ (g : os.Hasher). hash.method g ≡ sha256) (some_eq e) hash.sha256_new.0,
    subst (λ (g : os.Hasher). hash.fed g ≡ []) (some_eq e) hash.sha256_new.1,
  )
  new_hash_lem sha512 h e = (
    subst (λ (g : os.Hasher). hash.method g ≡ sha512) (some_eq e) hash.sha512_new.0,
    subst (λ (g : os.Hasher). hash.fed g ≡ []) (some_eq e) hash.sha512_new.1,
  )
  new_hash_lem unspecified h e = cc
  new_hash_lem other_method h e = cc

  sum_reads_lem :
      (m : HashMethod) (h : os.Hasher) (ss : List Str)
      → new_hash os m ≡ some h
      → sum_reads os (some h) ss none ≡ ok (hash.digest m (concat ss))
  unfolding sum_reads
  sum_reads_lem m h ss e =
      let (g, e1, fed, same) = hash_reads_all h ss in
      let (meth, new) = new_hash_lem m h e in
      rw (e1, sum_reads)
        (ap ok (
          hash.sum_lem g
          ∙ (ap (λ (n : HashMethod). hash.digest n (hash.fed g)) (same ∙ meth)
              ∙ ap (hash.digest m) (fed ∙ ap (λ (t : Str). t ++ concat ss) new))))

  module _ (schemas_dir dirname : Str) where
    -- The reads start at the rewound offset, so the hash is that of the whole file.
    calc_hash_lem :
        (f : os.File) (m : HashMethod) (h : os.Hasher) (s : Str) (n : ℕ) (d : os.Disk)
        → new_hash os m ≡ some h
        → disk.state d f ≡ opened_at s n
        → (d' : os.Disk) × (calc_hash os schemas_dir dirname f (some h) d
            ≡ (ok (hash.digest m s), d'))
          × (disk.state d' f ≡ opened_at s (length s))
    unfolding calc_hash
    calc_hash_lem f m h s n d e st =
        let clean = close_and_clean os schemas_dir dirname f in
        let d1 = (os.rewind f d).1 in
        let (went, start) = disk.rewind_ok f s n d st in
        let (all_, end, behind) = disk.reads_ok f s 0 d1 start in
        (
          (os.reads f d1).1,
          bind_done (on_error (os.rewind f) clean) _ d d1 tt
                (on_error_done (os.rewind f) clean d tt went)
              ∙ on_error_done
                  (λ x.
                    (sum_reads os (some h) (os.reads f x).0.0 (os.reads f x).0.1, (os.reads f x).1))
                  clean d1 _
                  (ap (sum_reads os (some h) (os.reads f d1).0.0) end
                    ∙ (sum_reads_lem m h (os.reads f d1).0.0 e
                        ∙ ap (λ (t : Str). ok (hash.digest m t)) all_)),
          behind,
        )

    -- The check of a hash that is right.
    pub check_hash-right :
        (f : os.File) (m : HashMethod) (h : os.Hasher) (s : Str) (pos : ℕ) (d : os.Disk)
        → new_hash os m ≡ some h
        → disk.state d f ≡ opened_at s pos
        → (d' : os.Disk) × (check_hash os schemas_dir dirname f
              (record { method = m; hash = hash.digest m s })
              d
            ≡ (ok tt, d'))
          × ((disk.state d' f).bytes ≡ s)
    unfolding check_hash
    check_hash-right f m h s pos d e st = by_method m e
      where
        compared : HashMethod → Str → os.Disk → Result (Unit {0}) × os.Disk
        compared n wanted = calc_hash os schemas_dir dirname f (new_hash os n) >>= (λ t.
            if t == wanted
            then ignore (os.close f)
            else close_and_clean os schemas_dir dirname f >> fail wrong_hash)

        equal :
            (n : HashMethod)
            → new_hash os n ≡ some h
            → (d' : os.Disk) × (compared n (hash.digest n s) d ≡ (ok tt, d'))
              × ((disk.state d' f).bytes ≡ s)
        equal n k =
            let (d1, calculated, same) = calc_hash_lem f n h s pos d k st in
            let wanted = hash.digest n s in
            (
              (os.close f d1).1,
              bind_done (calc_hash os schemas_dir dirname f (new_hash os n)) _ d d1 wanted (
                    ap (λ (o : Option os.Hasher). calc_hash os schemas_dir dirname f o d) k
                    ∙ calculated)
                  ∙ ap
                      (λ (b : Bool).
                        (if b
                            then ignore (os.close f)
                            else close_and_clean os schemas_dir dirname f >> fail wrong_hash)
                          d1)
                      (beq_refl wanted),
              ap (λ (x : Handle). x.bytes) (disk.close_ok f s (length s) d1 same).1,
            )

        by_method :
            (n : HashMethod)
            → new_hash os n ≡ some h
            → (d' : os.Disk) × (check_hash os schemas_dir dirname f
                  (record { method = n; hash = hash.digest n s })
                  d
                ≡ (ok tt, d'))
              × ((disk.state d' f).bytes ≡ s)
        by_method md5 k = equal md5 k
        by_method sha256 k = equal sha256 k
        by_method sha512 k = equal sha512 k
        by_method unspecified k = cc
        by_method other_method k = cc

    -- A wrong hash is refused.
    pub check_hash-wrong :
        (f : os.File) (m : HashMethod) (h : os.Hasher) (given s : Str) (pos : ℕ) (d : os.Disk)
        → new_hash os m ≡ some h
        → disk.state d f ≡ opened_at s pos
        → hash.digest m s ≢ given
        → (check_hash os schemas_dir dirname f (record { method = m; hash = given }) d).0
          ≡ err wrong_hash
    unfolding check_hash
    check_hash-wrong f m h given s pos d e st differ = by_method m e differ
      where
        unequal :
            (n : HashMethod)
            → new_hash os n ≡ some h
            → hash.digest n s ≢ given
            → ((calc_hash os schemas_dir dirname f (new_hash os n) >>= (λ t.
                  if t == given
                  then ignore (os.close f)
                  else close_and_clean os schemas_dir dirname f >> fail wrong_hash))
                d).0
              ≡ err wrong_hash
        unequal n k other =
            let (d1, calculated, same) = calc_hash_lem f n h s pos d k st in
            ap (λ r. r.0)
              (bind_done (calc_hash os schemas_dir dirname f (new_hash os n)) _ d d1
                  (hash.digest n s)
                  (ap (λ (o : Option os.Hasher). calc_hash os schemas_dir dirname f o d) k
                    ∙ calculated)
                ∙ ap
                    (λ (b : Bool).
                      (if b
                          then ignore (os.close f)
                          else close_and_clean os schemas_dir dirname f >> fail wrong_hash)
                        d1)
                    (beq_no (hash.digest n s) given other))

        by_method :
            (n : HashMethod)
            → new_hash os n ≡ some h
            → hash.digest n s ≢ given
            → (check_hash os schemas_dir dirname f (record { method = n; hash = given }) d).0
              ≡ err wrong_hash
        by_method md5 k other = unequal md5 k other
        by_method sha256 k other = unequal sha256 k other
        by_method sha512 k other = unequal sha512 k other
        by_method unspecified k other = cc
        by_method other_method k other = cc
