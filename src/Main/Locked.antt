-- ===== src/Main/Locked.antt =====
-- The restart of `main` over a persistent store, whose database nothing closes.
use sdcio_schema_server.Base.{
  ℕ, suc, ◌≡◌, refl, ◌∙◌, true, false, none, some, Str, str_eq, ◌==◌, Result, ok, err, panic, Error,
  >>=-eq-ok,
}
use sdcio_schema_server.Config.{Config, SchemaStoreConfig}
use sdcio_schema_server.Yang.{Entry, Goyang}
use sdcio_schema_server.Schema.Element.{Annotations}
use sdcio_schema_server.Schema.Load.{Host}
use sdcio_schema_server.Store.Badger.{Libs}
use sdcio_schema_server.Store.Persist.Open.{new_store}
use sdcio_schema_server.Server.Io.{Io, pure, continue, ◌>>=◌, ran, bind_done, bind_failed}
use sdcio_schema_server.Server.Start.{Opened, choose_store, persistent_type}
use sdcio_schema_server.Main.{
  Process, exited, new_config, open_store, new_server, serve_on, start, main_loop,
}

-- A call that keeps a property of the state, whatever it returns.
abbrev KeepsState : {D A : Type 0} → (D → Type 0) → Io D A → Type 0
KeepsState {D} P m = (d : D) → P d → P (m d).1

bind-kept :
    {D A B : Type 0} (P : D → Type 0) (m : Io D A) (next : A → Io D B) (d : D)
    → P (m d).1
    → ((a : A) → KeepsState P (next a))
    → P ((m >>= next) d).1
bind-kept {D} {A} {B} P m next d h kn = continued (m d).0 (m d).1 h
  where
    continued : (r : Result A) (d' : D) → P d' → P (continue (r, d') next).1
    continued (ok a) d' g = kn a d' g
    continued (err e) d' g = g
    continued panic d' g = g

bind_ok :
    {D A B : Type 0} (m : Io D A) (next : A → Io D B) (d : D) (b : B)
    → ((m >>= next) d).0 ≡ ok b
    → (a : A) × ((m d).0 ≡ ok a) × ((next a (m d).1).0 ≡ ok b)
bind_ok {D} {A} {B} m next d b h = continued (m d).0 (m d).1 h
  where
    continued :
        (r : Result A) (d' : D)
        → (continue (r, d') next).0 ≡ ok b
        → (a : A) × (r ≡ ok a) × ((next a d').0 ≡ ok b)
    continued (ok a) d' g = (a, refl, g)
    continued (err e) d' g = cc
    continued panic d' g = cc

-- What the restart relies on of badger and of the calls around it: a directory that is open in the
-- process cannot be opened, since badger locks it until `Close`, and no other call closes it.
pub record IsLocking {l : Libs} (p : Process l) : Type 1 where
  pub Held : Str → p.State → Type 0
  pub open_db-locked :
      (path : Str) (d : p.State) → Held path d → (e : Error) × ((p.open_db path d).0 ≡ err e)
  pub open_db-Held :
      (path : Str) (d : p.State) (db : l.Db)
      → (p.open_db path d).0 ≡ ok db
      → Held path (p.open_db path d).1
  pub read_file-Held : (path file : Str) → KeepsState (Held path) (p.read_file file)
  pub new_grpc-Held : (path : Str) (c : Config) → KeepsState (Held path) (p.new_grpc c)
  pub stop_grpc-Held : (path : Str) (d : p.State) → Held path d → Held path (p.stop_grpc d)
  pub listen-Held : (path address : Str) → KeepsState (Held path) (p.listen address)
  pub serve-Held : (path : Str) → KeepsState (Held path) p.serve

module _ (l : Libs) (p : Process l) (k : IsLocking p) (make_cache : ℕ → ℕ → l.Cache)
    (sc : SchemaStoreConfig) (typed : (sc.type == persistent_type) ≡ true) where
  choose_store-closed :
      (op : Str → Result l.Db) (e : Error)
      → op sc.path ≡ err e
      → choose_store l op make_cache sc ≡ err e
  unfolding choose_store new_store
  choose_store-closed op e h = rw (typed, h) refl

  choose_store-open :
      (op : Str → Result l.Db) (s : Opened l)
      → choose_store l op make_cache sc ≡ ok s
      → (db : l.Db) × (op sc.path ≡ ok db)
  unfolding choose_store new_store
  choose_store-open op s h =
      let (st, made, _) =
        >>=-eq-ok (new_store l op make_cache sc.path sc.cache) _ (rw typed at h) in
      let (db, opened, _) = >>=-eq-ok (op sc.path) _ made in (db, opened)

  open_store-locked :
      (d : p.State) → k.Held sc.path d → (e : Error) × ((open_store l p make_cache sc d).0 ≡ err e)
  unfolding open_store
  open_store-locked d held =
      let (e, h) = k.open_db-locked sc.path d held in
      (e, choose_store-closed (λ path. (p.open_db path d).0) e h)

  open_store-Held :
      (d : p.State) (s : Opened l)
      → (open_store l p make_cache sc d).0 ≡ ok s
      → k.Held sc.path (open_store l p make_cache sc d).1
  unfolding open_store
  open_store-Held d s h =
      let (db, opened) = choose_store-open (λ path. (p.open_db path d).0) s h in
      rw typed (k.open_db-Held sc.path d db opened)

  module _ (y : Goyang) (h : Host) (annotate : Entry → Result Annotations) (c : Config)
      (stored : c.schema_store ≡ some sc) where
    new_server-locked :
        (d : p.State)
        → k.Held sc.path d
        → (e : Error) × ((new_server l p make_cache y h annotate c d).0 ≡ err e)
    unfolding new_server
    new_server-locked d held =
        let (e, closed) = open_store-locked d held in
        (e, rw stored (bind_failed (open_store l p make_cache sc) _ d e closed))

    new_server-Held :
        (d : p.State) (s : Opened l)
        → (new_server l p make_cache y h annotate c d).0 ≡ ok s
        → k.Held sc.path (new_server l p make_cache y h annotate c d).1
    unfolding new_server
    new_server-Held d s g =
        let (t, opened, _) = bind_ok (open_store l p make_cache sc) _ d s (rw stored at g) in
        rw stored (
          bind-kept (k.Held sc.path) (open_store l p make_cache sc) _ d (open_store-Held d t opened)
            (λ s' d' held.
              bind-kept (k.Held sc.path) (p.new_grpc _) _ d' (k.new_grpc-Held sc.path _ d' held)
                (λ u d'' kept. kept)))

    module _ (file : Str) (b : Str) (steady : (d : p.State) → (new_config p file d).0 ≡ ok c)
        (printed : p.marshal_indent c ≡ ok b) where
      new_config-Held : KeepsState (k.Held sc.path) (new_config p file)
      unfolding new_config
      new_config-Held d held =
          bind-kept (k.Held sc.path) (p.read_file file) _ d (k.read_file-Held sc.path file d held)
            (λ u d' kept. kept)

      -- A start, behind the reading of the configuration.
      start-new_server :
          (d : p.State)
          → start l p make_cache y h annotate file d
            ≡ continue
                (new_server l p make_cache y h annotate c (new_config p file d).1)
                (λ s. pure (c, s))
      unfolding start
      start-new_server d =
          bind_done (new_config p file) _ d (new_config p file d).1 c
            (ran (new_config p file) d c (steady d))
          ∙ rw printed refl

      start-locked :
          (d : p.State)
          → k.Held sc.path d
          → (e : Error) × ((start l p make_cache y h annotate file d).0 ≡ err e)
      start-locked d held =
          let (e, closed) = new_server-locked (new_config p file d).1 (new_config-Held d held) in
          (
            e,
            rw (start-new_server d) (
                bind_failed (new_server l p make_cache y h annotate c) _ (new_config p file d).1 e
                  closed),
          )

      start-Held :
          (d : p.State) (t : Config × Opened l)
          → (start l p make_cache y h annotate file d).0 ≡ ok t
          → k.Held sc.path (start l p make_cache y h annotate file d).1
      start-Held d t g =
          let (s, made, _) =
            bind_ok (new_server l p make_cache y h annotate c) _ (new_config p file d).1 t
              (rw (start-new_server d) at g) in
          rw (start-new_server d) (
            bind-kept (k.Held sc.path) (new_server l p make_cache y h annotate c) _
              (new_config p file d).1 (new_server-Held (new_config p file d).1 s made)
              (λ u d' kept. kept))

      serve_on-Held :
          (e : Config) → KeepsState (k.Held sc.path) (serve_on l p make_cache y h annotate e)
      unfolding serve_on
      serve_on-Held e d held =
          bind-kept (k.Held sc.path) (p.listen _) _ d (k.listen-Held sc.path _ d held)
            (λ u d' kept. k.serve-Held sc.path d' kept)

      -- A round that begins while the database is open ends the program.
      main_loop-locked :
          (n : ℕ) (s : Opened l) (d : p.State)
          → k.Held sc.path d
          → (main_loop l p make_cache y h annotate (suc n) file (some s) d).0 ≡ exited
      unfolding main_loop
      main_loop-locked n s d held =
          let (e, closed) = start-locked (p.stop_grpc d) (k.stop_grpc-Held sc.path d held) in
          rw (closed, main_loop) refl

      -- After a `Serve` that fails, the server with a persistent store does not start again: the
      -- round that follows the first ends the program with `os.Exit(1)`, however many rounds there
      -- might be, since the first store is still open and badger does not open its directory a
      -- second time. The first round has started the server, no signal has set `stop`, and the
      -- configuration is the same each time it is read.
      pub main_loop_ends :
          (n : ℕ) (d : p.State) (t : Config × Opened l) (e : Error)
          → (start l p make_cache y h annotate file d).0 ≡ ok t
          → (serve_on l p make_cache y h annotate t.0
              (start l p make_cache y h annotate file d).1).0
            ≡ err e
          → p.stopping
              (serve_on l p make_cache y h annotate t.0
                (start l p make_cache y h annotate file d).1).1
            ≡ false
          → (main_loop l p make_cache y h annotate (suc (suc n)) file none d).0 ≡ exited
      unfolding main_loop
      main_loop_ends n d t e started failed going =
          rw (started, failed, going, main_loop)
            (main_loop-locked n t.1 _ (serve_on-Held t.0 _ (start-Held d t started)))
