-- ===== src/Store/Persist/Delete.antt =====
-- What `DeleteSchema` removes from the persistent store.
use sdcio_schema_server.Base.{
  ◌≡◌, ◌≢◌, refl, sym, ap, subst, ◌∙◌, Bool, true, false, ◌&&◌, not, Option, some, List, [], ◌∷◌,
  Str, Error, Result, ok, err, panic, is_ok, >>=-eq-ok, refuse, Bool-cases, inl, inr,
}
use sdcio_schema_server.Sdcpb.{SchemaName}
use sdcio_schema_server.Store.{SchemaKey, request_key, check_names}
use sdcio_schema_server.Store.Keys.{build_schema_key, build_entry_key}
use sdcio_schema_server.Store.Keys.Injective.{IsSeparable, extends, has_any_prefix-extends}
use sdcio_schema_server.Store.Badger.{Libs, IsReliable, IsWritable}
use sdcio_schema_server.Store.Persist.{
  PersistStore, has_schema, commit, prefixes_of, dropped, left_by_drop, delete_schema,
}

module _ (l : Libs) where
  -- What a deletion that succeeded has done.
  pub record Dropped (s : PersistStore l) (n : SchemaName) (s' : PersistStore l) : Type 0 where
    pub objects : Str
    pub objects_key : build_entry_key (request_key n) ([] ∷ []) ≡ ok objects
    pub dropped : l.drop_prefix (objects ∷ (build_schema_key (request_key n) ∷ [])) s.db ≡ ok s'.db
    pub present : has_schema l s (request_key n) ≡ true

  pub commit_ok :
      (s : PersistStore l) (left : l.Db) (r : Result l.Db)
      → (commit l s left r).0 ≡ ok tt
      → (d : l.Db) × (r ≡ ok d) × ((commit l s left r).1 ≡ record s { db = d })
  commit_ok s left (ok d) h = (d, refl, refl)
  commit_ok s left (err e) h = cc
  commit_ok s left panic h = cc

  -- A call that fails leaves the store as it was, where an error of the database does.
  pub commit_failed :
      (s : PersistStore l) (left : l.Db) (r : Result l.Db)
      → ((e : Error) → r ≡ err e → left ≡ s.db)
      → (commit l s left r).0 ≢ ok tt
      → (commit l s left r).1 ≡ s
  commit_failed s left (ok d) h g = absurd (g refl)
  commit_failed s left (err e) h g = ap (λ (d : l.Db). record s { db = d }) (h e refl)
  commit_failed s left panic h g = refl

  refuse-not : (b : Bool) (e : Error) {u : Unit {0}} → refuse (not b) e ≡ ok u → b ≡ true
  refuse-not true e h = refl
  refuse-not false e h = cc

  deleted-Dropped :
      (s : PersistStore l) (n : SchemaName) (d : l.Db)
      → dropped l s (prefixes_of l s (some n)) ≡ ok d
      → Dropped s n (record s { db = d })
  unfolding prefixes_of
  deleted-Dropped s n d h =
      let (ps, e0, r0) = >>=-eq-ok (prefixes_of l s (some n)) (λ qs. l.drop_prefix qs s.db) h in
      let (u, e1, r1) = >>=-eq-ok (check_names n) _ e0 in
      let (v, e2, r2) = >>=-eq-ok (refuse (not (has_schema l s (request_key n))) _) _ r1 in
      let (objects, e3, r3) =
        >>=-eq-ok (build_entry_key (request_key n) ([] ∷ []))
          (λ x. ok (x ∷ (build_schema_key (request_key n) ∷ []))) r2 in
      record {
        objects = objects;
        objects_key = e3;
        dropped = subst (λ qs. l.drop_prefix qs s.db ≡ ok d) (ok_list r3) r0;
        present = refuse-not _ _ e2;
      }
    where
      ok_list : {ps qs : List Str} → ◌≡◌ {A = Result (List Str)} (ok ps) (ok qs) → qs ≡ ps
      ok_list g = cc

  pub delete_schema-Dropped :
      (s : PersistStore l) (n : SchemaName)
      → (delete_schema l s (some n)).0 ≡ ok tt
      → Dropped s n (delete_schema l s (some n)).1
  unfolding delete_schema
  delete_schema-Dropped s n h =
      let (d, e, r) = commit_ok s _ (dropped l s (prefixes_of l s (some n))) h in
      subst (Dropped s n) (sym r) (deleted-Dropped s n d e)

  -- A deletion that fails leaves a database that takes every write as it was.
  pub delete_schema_failed :
      (w : IsWritable l) (s : PersistStore l) (req : Option SchemaName)
      → (delete_schema l s req).0 ≢ ok tt
      → (delete_schema l s req).1 ≡ s
  unfolding delete_schema
  delete_schema_failed w s req h = commit_failed s _ _ (kept (prefixes_of l s req)) h
    where
      kept :
          (ps : Result (List Str)) (e : Error) → dropped l s ps ≡ err e → left_by_drop l s ps ≡ s.db
      kept (ok ps) e g = let (d, done) = w.drop_ok ps s.db in cc
      kept (err x) e g = refl
      kept panic e g = refl

  at_key :
      (r : IsReliable l) (s : PersistStore l) (n : SchemaName) (j : SchemaKey) (s' : PersistStore l)
      → IsSeparable (request_key n)
      → IsSeparable j
      → Dropped s n s'
      → has_schema l s' j ≡ (has_schema l s j && not (extends (request_key n) j))
  unfolding has_schema
  at_key r s n j s' hn hj d =
      let reached = has_any_prefix-extends (request_key n) j d.objects hn hj d.objects_key in
      elim (Bool-cases (extends (request_key n) j)) [
        | inl e ↦ rw e (
            gone (l.get s'.db (build_schema_key j)) (l.get s.db (build_schema_key j))
              (r.get-drop_gone _ s.db s'.db (build_schema_key j) d.dropped (reached ∙ e)))
        | inr e ↦
            rw e
              (kept _ _ (r.get-drop_kept _ s.db s'.db (build_schema_key j) d.dropped (reached ∙ e)))
      ]
    where
      gone : (a b : Result Str) → is_ok a ≡ false → is_ok a ≡ (is_ok b && false)
      gone a (ok b) h = h
      gone a (err e) h = h
      gone a panic h = h

      kept : (a b : Result Str) → a ≡ b → is_ok a ≡ (is_ok b && true)
      kept a (ok b) h = ap is_ok h
      kept a (err e) h = ap is_ok h
      kept a panic h = ap is_ok h

  -- After a deletion that succeeds a schema is in the store exactly if it was there before and its
  -- key does not extend the deleted one: a schema of the same name and vendor is gone too if its
  -- version begins with the deleted version. The libraries are reliable, and the names and vendors
  -- hold no `@`.
  pub has_schema-delete_schema :
      (r : IsReliable l) (s : PersistStore l) (n : SchemaName) (j : SchemaKey)
      → IsSeparable (request_key n)
      → IsSeparable j
      → (delete_schema l s (some n)).0 ≡ ok tt
      → has_schema l (delete_schema l s (some n)).1 j
        ≡ (has_schema l s j && not (extends (request_key n) j))
  has_schema-delete_schema r s n j hn hj h = at_key r s n j _ hn hj (delete_schema-Dropped s n h)
