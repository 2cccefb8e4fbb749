-- ===== src/Store/Persist/Elements/Prefixes.antt =====
-- The messages of `GetSchemaElements`: one for each prefix of the path.
use sdcio_schema_server.Base.{
  ◌≡◌, ◌≢◌, refl, ap, sym, ◌∙◌, Bool, Option, none, some, List, [], ◌∷◌, ◌++◌, Str, Result, ok, err,
  panic, true,
}
use sdcio_schema_server.Sdcpb.{PathElem, SdcPath, SchemaElem, SchemaName}
use sdcio_schema_server.Store.{SchemaKey, request_key}
use sdcio_schema_server.Store.Badger.{Libs}
use sdcio_schema_server.Store.Persist.{has_schema}
use sdcio_schema_server.Store.Persist.Reads.{get_schema_at}
use sdcio_schema_server.Store.Persist.Uncached.{uncached, get_schema_at-uncached}
use sdcio_schema_server.Store.Persist.Elements.{
  path_of_names, names_of, Messages, send_prefixes, send_verified, get_schema_elements,
}

ok_inj {ℓ} : {A : Type ℓ} {a b : A} → ◌≡◌ {A = Result A} (ok a) (ok b) → a ≡ b
ok_inj h = cc

-- The message of a read: nil where the read fails.
abbrev pub message : Result SchemaElem → Option SchemaElem
message (ok e) = some e
message (err e) = none
message panic = none

module _ (l : Libs) (described : Bool) (db : l.Db) (with_desc : Bool) (k : SchemaKey) where
  abbrev pub read_names : List Str → Result SchemaElem
  read_names ns = (get_schema_at l (uncached l described db) (path_of_names ns) with_desc k).0

  -- The messages of the reads of the prefixes that are longer than `before`.
  abbrev pub prefix_messages : List Str → List Str → List (Option SchemaElem)
  prefix_messages before [] = []
  prefix_messages before (n ∷ ns) =
      message (read_names (before ++ n ∷ [])) ∷ prefix_messages (before ++ n ∷ []) ns

  -- No read of those prefixes panics.
  abbrev pub NoPanics : List Str → List Str → Type 0
  NoPanics before [] = Unit {0}
  NoPanics before (n ∷ ns) =
      (read_names (before ++ n ∷ []) ≢ panic) × NoPanics (before ++ n ∷ []) ns

  abbrev after : List Str → List Str → Messages l
  after before ns = send_prefixes l with_desc k before ns (uncached l described db)

  send_prefixes_step :
      (before : List Str) (n : Str) (ns : List Str) (r : Result SchemaElem)
      (ms : List (Option SchemaElem))
      → read_names (before ++ n ∷ []) ≡ r
      → r ≢ panic
      → after (before ++ n ∷ []) ns ≡ (ok ms, uncached l described db)
      → after before (n ∷ ns) ≡ (ok (message r ∷ ms), uncached l described db)
  unfolding send_prefixes
  send_prefixes_step before n ns (ok e) ms read h rest = rw (
    read,
    get_schema_at-uncached l described db (path_of_names (before ++ n ∷ [])) with_desc k,
    rest,
    send_prefixes,
  )
  send_prefixes_step before n ns (err e) ms read h rest = rw (
    read,
    get_schema_at-uncached l described db (path_of_names (before ++ n ∷ [])) with_desc k,
    rest,
    send_prefixes,
  )
  send_prefixes_step before n ns panic ms read h rest = absurd (h refl)

  send_prefixes_lem :
      (before ns : List Str)
      → NoPanics before ns
      → after before ns ≡ (ok (prefix_messages before ns), uncached l described db)
  unfolding send_prefixes
  send_prefixes_lem before [] h = refl
  send_prefixes_lem before (n ∷ ns) (h, hs) =
      send_prefixes_step before n ns (read_names (before ++ n ∷ []))
        (prefix_messages (before ++ n ∷ []) ns) refl h (send_prefixes_lem (before ++ n ∷ []) ns hs)

  abbrev path_with : Str → Str → List PathElem → SdcPath
  path_with o t pes = record { origin = o; target = t; elem = pes }

  -- The keys, the origin and the target of a path are not read.
  get_schema_at-single :
      (o t : Str) (pe : PathElem)
      → get_schema_at l (uncached l described db) (path_with o t (pe ∷ [])) with_desc k
        ≡ get_schema_at l (uncached l described db) (path_of_names (pe.name ∷ [])) with_desc k
  unfolding get_schema_at
  get_schema_at-single o t pe = refl

  -- The read of the whole path, with its store.
  whole :
      (o t : Str) (pes : List PathElem) (e : SchemaElem)
      → (get_schema_at l (uncached l described db) (path_with o t pes) with_desc k).0 ≡ ok e
      → get_schema_at l (uncached l described db) (path_with o t pes) with_desc k
        ≡ (ok e, uncached l described db)
  whole o t pes e h =
      λ i. (h i, get_schema_at-uncached l described db (path_with o t pes) with_desc k i)

  send_verified_lem :
      (o t : Str) (pes : List PathElem) (e : SchemaElem)
      → (get_schema_at l (uncached l described db) (path_with o t pes) with_desc k).0 ≡ ok e
      → NoPanics [] (names_of pes)
      → send_verified l with_desc k pes
          (get_schema_at l (uncached l described db) (path_with o t pes) with_desc k)
        ≡ (ok (prefix_messages [] (names_of pes)), uncached l described db)
  send_verified_lem o t [] e h safe = rw (whole o t [] e h) (send_prefixes_lem [] [] safe)
  send_verified_lem o t (pe ∷ []) e h safe = rw (whole o t (pe ∷ []) e h) (
      ap (λ r. (ok (message r.0 ∷ []), uncached l described db))
        (sym (whole o t (pe ∷ []) e h) ∙ get_schema_at-single o t pe))
  send_verified_lem o t (pe ∷ (qe ∷ pes)) e h safe =
      rw (whole o t (pe ∷ (qe ∷ pes)) e h) (send_prefixes_lem [] (names_of (pe ∷ (qe ∷ pes))) safe)

-- In a store without a cache a request for a schema that is there, with a path that is found, is
-- answered with one message for each element of the path, in their order: the entry at the names up
-- to the element, or nil where it is not found. No read of a prefix panics. The empty path gets
-- no message.
pub get_schema_elements_prefixes :
    (l : Libs) (described : Bool) (db : l.Db) (with_desc : Bool) (n : SchemaName) (o t : Str)
    (pes : List PathElem) (e : SchemaElem)
    → has_schema l (uncached l described db) (request_key n) ≡ true
    → (get_schema_at l
        (uncached l described db)
        (record { origin = o; target = t; elem = pes })
        with_desc
        (request_key n)).0
      ≡ ok e
    → NoPanics l described db with_desc (request_key n) [] (names_of pes)
    → get_schema_elements l
        (record {
          schema = some n;
          path = record { origin = o; target = t; elem = pes };
          with_description = with_desc;
        })
        (uncached l described db)
      ≡ (
        ok (prefix_messages l described db with_desc (request_key n) [] (names_of pes)),
        uncached l described db,
      )
unfolding get_schema_elements
get_schema_elements_prefixes l described db with_desc n o t pes e there found safe =
    rw (there, get_schema_elements)
      (send_verified_lem l described db with_desc (request_key n) o t pes e found safe)
