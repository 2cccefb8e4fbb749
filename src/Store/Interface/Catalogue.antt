-- ===== src/Store/Interface/Catalogue.antt =====
-- The stores as a set of keys: what any sequence of changes does to the schemas that there are.
use sdcio_schema_server.Base.{
  ◌≡◌, refl, sym, ap, subst, ◌∙◌, Bool, true, false, ◌&&◌, ◌||◌, not, some, List, [], ◌∷◌, Str, All,
  Result, ok, err, panic, is_ok, Bool-cases, inl, inr,
}
use sdcio_schema_server.Sdcpb.{SchemaName}
use sdcio_schema_server.Yang.{Entry}
use sdcio_schema_server.Schema.Element.{Annotations}
use sdcio_schema_server.Schema.Load.{Host, Schema}
use sdcio_schema_server.Store.{SchemaKey, key_beq, key_beq_iff, key_of, request_key, create_request}
use sdcio_schema_server.Store.Keys.Injective.{IsSeparable}
use sdcio_schema_server.Store.Mem.{MemStore}
use sdcio_schema_server.Store.Interface.{StoreOps, IsStore}
use sdcio_schema_server.Store.Interface.Memory.{memory, memory-IsStore}

pub data Change : Type 0 where
  add : Schema → Change
  create : SchemaName → (files directories excludes : List Str) → Change
  delete : SchemaName → Change

-- The schema that a change names.
abbrev pub subject : Change → SchemaKey
subject (add sc) = key_of sc
subject (create n fs ds xs) = request_key n
subject (delete n) = request_key n

abbrev pub perform : (o : StoreOps) → Change → o.State → Result (Unit {0}) × o.State
perform o (add sc) s = o.add_schema s sc
perform o (create n fs ds xs) s = o.create_schema s (create_request n fs ds xs)
perform o (delete n) s = o.delete_schema s (some n)

-- The store after a sequence of changes, and which of them succeeded.
abbrev pub run : (o : StoreOps) → List Change → o.State → o.State
run o [] s = s
run o (c ∷ cs) s = run o cs (perform o c s).1

abbrev pub outcomes : (o : StoreOps) → List Change → o.State → List (Change × Bool)
outcomes o [] s = []
outcomes o (c ∷ cs) s = (c, is_ok (perform o c s).0) ∷ outcomes o cs (perform o c s).1

-- What a change, by its outcome, does to one key of a set of keys.
abbrev pub effect : (SchemaKey → SchemaKey → Bool) → Change × Bool → SchemaKey → Bool → Bool
effect drops (c, false) j b = b
effect drops (add sc, true) j b = key_beq (key_of sc) j || b
effect drops (create n fs ds xs, true) j b = key_beq (request_key n) j || b
effect drops (delete n, true) j b = b && not (drops (request_key n) j)

abbrev pub effects : (SchemaKey → SchemaKey → Bool) → List (Change × Bool) → SchemaKey → Bool → Bool
effects drops [] j b = b
effects drops (c ∷ cs) j b = effects drops cs j (effect drops c j b)

-- Whether a set may accept a change: a schema is created where there is none, and deleted where there
-- is one.
abbrev pub is_legal : Change × Bool → SchemaKey → Bool → Bool
is_legal (c, false) j b = true
is_legal (add sc, true) j b = true
is_legal (create n fs ds xs, true) j b = not (key_beq (request_key n) j && b)
is_legal (delete n, true) j b = not (key_beq (request_key n) j) || b

abbrev pub are_legal :
    (SchemaKey → SchemaKey → Bool) → List (Change × Bool) → SchemaKey → Bool → Bool
are_legal drops [] j b = true
are_legal drops (c ∷ cs) j b = is_legal c j b && are_legal drops cs j (effect drops c j b)

-- What a run of a store is at one key: the run of the set, all of whose steps are legal.
abbrev pub Refines :
    (o : StoreOps) → (SchemaKey → SchemaKey → Bool) → List Change → o.State → SchemaKey → Type 0
Refines o drops cs s j =
    (o.has_schema (run o cs s) j ≡ effects drops (outcomes o cs s) j (o.has_schema s j))
    × (are_legal drops (outcomes o cs s) j (o.has_schema s j) ≡ true)

is_ok-eq : (r : Result (Unit {0})) → is_ok r ≡ true → r ≡ ok tt
is_ok-eq (ok u) h = refl
is_ok-eq (err e) h = cc
is_ok-eq panic h = cc

not_ok : (r : Result (Unit {0})) → is_ok r ≡ false → r ≡ ok tt → ⊥
not_ok (ok u) h e = cc
not_ok (err x) h e = cc
not_ok panic h e = cc

module _ (o : StoreOps) (drops : SchemaKey → SchemaKey → Bool) (i : IsStore o drops) where
  -- One change at one key.
  abbrev Follows : Change → o.State → SchemaKey → Bool → Type 0
  Follows c s j b =
      (o.has_schema (perform o c s).1 j ≡ effect drops (c, b) j (o.has_schema s j))
      × (is_legal (c, b) j (o.has_schema s j) ≡ true)

  failed_unchanged :
      (c : Change) (s : o.State) → is_ok (perform o c s).0 ≡ false → (perform o c s).1 ≡ s
  failed_unchanged (add sc) s h = i.add_schema_failed s sc (not_ok _ h)
  failed_unchanged (create n fs ds xs) s h =
      i.create_schema_failed s (create_request n fs ds xs) (not_ok _ h)
  failed_unchanged (delete n) s h = i.delete_schema_failed s (some n) (not_ok _ h)

  legal_create :
      (k j : SchemaKey) (s : o.State)
      → o.has_schema s k ≡ false
      → not (key_beq k j && o.has_schema s j) ≡ true
  legal_create k j s h = elim (Bool-cases (key_beq k j)) [
    | inl e ↦ rw (e, subst (λ (m : SchemaKey). o.has_schema s m ≡ false) ((key_beq_iff k j).0 e) h)
    | inr e ↦ rw e
  ]

  legal_delete :
      (k j : SchemaKey) (s : o.State)
      → o.has_schema s k ≡ true
      → (not (key_beq k j) || o.has_schema s j) ≡ true
  legal_delete k j s h = elim (Bool-cases (key_beq k j)) [
    | inl e ↦ rw (e, subst (λ (m : SchemaKey). o.has_schema s m ≡ true) ((key_beq_iff k j).0 e) h)
    | inr e ↦ rw e
  ]

  perform-Follows :
      (c : Change) (s : o.State) (j : SchemaKey)
      → IsSeparable (subject c)
      → IsSeparable j
      → is_ok (perform o c s).0 ≡ true
      → Follows c s j true
  perform-Follows (add sc) s j hk hj g = (i.has_schema-add_schema s sc j hk hj (is_ok-eq _ g), refl)
  perform-Follows (create n fs ds xs) s j hk hj g =
      let (absent, after) = i.has_schema-create_schema s n fs ds xs j hk hj (is_ok-eq _ g) in
      (after, legal_create (request_key n) j s absent)
  perform-Follows (delete n) s j hk hj g =
      let (present, after) = i.has_schema-delete_schema s n j hk hj (is_ok-eq _ g) in
      (after, legal_delete (request_key n) j s present)

  step-Follows :
      (c : Change) (s : o.State) (j : SchemaKey)
      → IsSeparable (subject c)
      → IsSeparable j
      → Follows c s j (is_ok (perform o c s).0)
  step-Follows c s j hk hj = elim (Bool-cases (is_ok (perform o c s).0)) [
    | inl g ↦ rw g (perform-Follows c s j hk hj g)
    | inr g ↦ rw g (ap (λ (t : o.State). o.has_schema t j) (failed_unchanged c s g), refl)
  ]

  run-Refines :
      (cs : List Change) (s : o.State) (j : SchemaKey)
      → All (λ c. IsSeparable (subject c)) cs
      → IsSeparable j
      → Refines o drops cs s j
  run-Refines [] s j h hj = (refl, refl)
  run-Refines (c ∷ cs) s j (hc, h) hj =
      let (after, legal) = step-Follows c s j hc hj in
      let (rest, rest_legal) = run-Refines cs (perform o c s).1 j h hj in
      (
        rest ∙ ap (effects drops (outcomes o cs (perform o c s).1) j) after,
        ap
              (λ b.
                b
                && are_legal drops (outcomes o cs (perform o c s).1) j
                    (effect drops (c, is_ok (perform o c s).0) j (o.has_schema s j)))
              legal
            ∙ (ap (are_legal drops (outcomes o cs (perform o c s).1) j) (sym after) ∙ rest_legal),
      )

-- Any sequence of additions, creations and deletions, failures included, does to the memory store
-- what it does to a set of keys: a deletion removes the key that it names, a schema is created where
-- there is none and deleted where there is one. The names and vendors hold no `@`.
pub memory-Refines :
    (h : Host) (annotate : Entry → Result Annotations) (cs : List Change) (s : MemStore)
    (j : SchemaKey)
    → All (λ c. IsSeparable (subject c)) cs
    → IsSeparable j
    → Refines (memory h annotate) key_beq cs s j
memory-Refines h annotate = run-Refines (memory h annotate) key_beq (memory-IsStore h annotate)
