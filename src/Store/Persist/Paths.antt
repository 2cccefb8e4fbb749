-- ===== src/Store/Persist/Paths.antt =====
-- The loop of `ToPath` in the persistent store.
use sdcio_schema_server.Base.{
  ℕ, zero, suc, ◌≡◌, ◌≤◌, ◌<◌, refl, false, str_eq, List, [], ◌∷◌, ◌++◌, Str, Dict, insert, length,
  Result, ok, err, panic, ◌>>=◌, >>=-eq-ok, arith,
}
use sdcio_schema_server.Sdcpb.{
  PathElem, LeafSchema, ContainerSchema, SchemaElem, container, field, leaflist,
}
use sdcio_schema_server.Store.{SchemaKey}
use sdcio_schema_server.Store.Badger.{Libs}
use sdcio_schema_server.Store.Persist.{PersistStore}
use sdcio_schema_server.Store.Persist.Reads.{
  get_schema_at, take_keys, fill_elem, path_to, name_elem, to_path_loop,
}

module _ (l : Libs) where
  take_keys_short :
      (ks : List LeafSchema) (vs : List Str) (m : Dict Str Str)
      → length vs < length ks
      → take_keys l ks vs m ≡ panic
  unfolding take_keys
  take_keys_short [] vs m h = absurd (omega arith)
  take_keys_short (k ∷ ks) [] m h = refl
  take_keys_short (k ∷ ks) (v ∷ vs) m h = take_keys_short ks vs (insert k.name v m) (omega arith)

  take_keys-length :
      (ks : List LeafSchema) (vs : List Str) (m : Dict Str Str) (t : Dict Str Str × List Str)
      → take_keys l ks vs m ≡ ok t
      → length t.1 ≤ length vs
  unfolding take_keys
  take_keys-length [] vs m t h = ground arith
  take_keys-length (k ∷ ks) [] m t h = cc
  take_keys-length (k ∷ ks) (v ∷ vs) m t h =
      omega (arith, take_keys-length ks vs (insert k.name v m) t h)

  fill_elem-length :
      (n : Str) (rest : List Str) (e : SchemaElem) (t : PathElem × List Str)
      → fill_elem l n rest e ≡ ok t
      → length t.1 ≤ length rest
  fill_elem-length n rest (field f) t h = ground arith
  fill_elem-length n [] (leaflist f) t h = cc
  fill_elem-length n (v ∷ rest) (leaflist f) t h = ground arith
  fill_elem-length n rest (container c) t h =
      let (p, e, r) = >>=-eq-ok (take_keys l c.keys rest []) _ h in
      omega (arith, take_keys-length c.keys rest [] p e, rest_eq r)
    where
      rest_eq :
          {a b : PathElem × List Str}
          → ◌≡◌ {A = Result (PathElem × List Str)} (ok a) (ok b)
          → length b.1 ≡ length a.1
      rest_eq k = cc

  -- The loop at an entry that is a list with more keys than path elements behind its name, of
  -- which there is at least one, reads out of range.
  pub to_path_loop_panics :
      (f : ℕ) (s : PersistStore l) (k : SchemaKey) (p : List PathElem) (n v : Str) (rest : List Str)
      (c : ContainerSchema)
      → (get_schema_at l s (path_to l (p ++ name_elem l n ∷ [])) false k).0 ≡ ok (container c)
      → length (v ∷ rest) < length c.keys
      → (to_path_loop l (suc f) s k p (n ∷ (v ∷ rest))).0 ≡ panic
  unfolding to_path_loop
  to_path_loop_panics f s k p n v rest c e h =
      rw (e, take_keys_short c.keys (v ∷ rest) [] h, to_path_loop)

  abbrev read_elem_at :
      PersistStore l → SchemaKey → List PathElem → Str → Result SchemaElem × PersistStore l
  read_elem_at s k p n = get_schema_at l s (path_to l (p ++ name_elem l n ∷ [])) false k

  to_path_loop_step :
      (f g : ℕ) (s : PersistStore l) (k : SchemaKey) (p : List PathElem) (n v : Str)
      (rest : List Str)
      → ((s' : PersistStore l) (p' : List PathElem) (rest' : List Str)
          → length rest' ≤ length (v ∷ rest)
          → to_path_loop l f s' k p' rest' ≡ to_path_loop l g s' k p' rest')
      → (r : Result (PathElem × List Str))
      → ((read_elem_at s k p n).0 >>= fill_elem l n (v ∷ rest)) ≡ r
      → to_path_loop l (suc f) s k p (n ∷ (v ∷ rest))
        ≡ to_path_loop l (suc g) s k p (n ∷ (v ∷ rest))
  unfolding to_path_loop
  to_path_loop_step f g s k p n v rest ih (err e) h = rw (h, to_path_loop)
  to_path_loop_step f g s k p n v rest ih panic h = rw (h, to_path_loop)
  to_path_loop_step f g s k p n v rest ih (ok t) h =
      let (e, _, filled) = >>=-eq-ok ((read_elem_at s k p n).0) (fill_elem l n (v ∷ rest)) h in
      rw (h, to_path_loop) (ih _ (p ++ t.0 ∷ []) t.1 (fill_elem-length n (v ∷ rest) e t filled))

  -- The loop needs no more fuel than one for each path element that is left and one for the end: any
  -- more gives the same result and the same store.
  pub to_path_loop_fuel :
      (f g : ℕ) (s : PersistStore l) (k : SchemaKey) (p : List PathElem) (rest : List Str)
      → length rest < f
      → length rest < g
      → to_path_loop l f s k p rest ≡ to_path_loop l g s k p rest
  unfolding to_path_loop
  to_path_loop_fuel zero g s k p rest h i = absurd (omega arith)
  to_path_loop_fuel (suc f) zero s k p rest h i = absurd (omega arith)
  to_path_loop_fuel (suc f) (suc g) s k p [] h i = refl
  to_path_loop_fuel (suc f) (suc g) s k p (n ∷ []) h i = refl
  to_path_loop_fuel (suc f) (suc g) s k p (n ∷ (v ∷ rest)) h i =
      to_path_loop_step f g s k p n v rest
        (λ s' p' rest' j.
          to_path_loop_fuel f g s' k p' rest' (omega (arith, j, h)) (omega (arith, j, i)))
        _ refl
