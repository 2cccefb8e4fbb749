-- ===== src/Server/Start/Growth.antt =====
-- What one step of a goroutine of `NewServer` does to the schemas that there are.
use sdcio_schema_server.Base.{
  ◌≡◌, refl, ap, sym, subst, ◌∙◌, ◌⊎◌, inl, inr, Bool, true, false, ◌&&◌, ◌||◌, List, [], ◌∷◌, map,
  All, Bool-cases, Result, ok, err, panic, beq_refl, if◌then◌else◌, arith,
}
use sdcio_schema_server.Config.{SchemaConfig}
use sdcio_schema_server.Yang.{Entry}
use sdcio_schema_server.Schema.Element.{Annotations}
use sdcio_schema_server.Schema.Load.{Host, Schema, new_schema}
use sdcio_schema_server.Schema.Load.Named.{new_schema-config}
use sdcio_schema_server.Store.{SchemaKey, key_beq, key_beq_iff, key_eq, key_in, key_of}
use sdcio_schema_server.Store.Keys.Injective.{IsSeparable}
use sdcio_schema_server.Store.Interface.{StoreOps, IsStore}
use sdcio_schema_server.Server.Start.{
  existing, added, Progress, starting, absent, ended, Task, outcome_of, add_parsed, advance,
}

-- The goroutine ended with its schema in the store.
abbrev pub IsThere : Progress → Type 0
IsThere (ended existing) = Unit
IsThere (ended added) = Unit
IsThere _ = ⊥

abbrev pub configs : List Task → List SchemaConfig
configs ts = map (λ t. t.0) ts

-- The key of one of the configured schemas.
abbrev pub IsConfigured : SchemaKey → List SchemaConfig → Type 0
IsConfigured j [] = ⊥
IsConfigured j (c ∷ cs) = (key_in c ≡ j) ⊎ IsConfigured j cs

abbrev pub AllSeparable : List SchemaConfig → Type 0
AllSeparable cs = All (λ c. IsSeparable (key_in c)) cs

module _ (o : StoreOps) (h : Host) (annotate : Entry → Result Annotations)
    (drops : SchemaKey → SchemaKey → Bool) (law : IsStore o drops) where
  -- The schemas of `t` are those of `s`, and perhaps that of `k`.
  abbrev pub Adds : SchemaKey → o.State → o.State → Type 0
  Adds k s t =
      (b : Bool) × ((j : SchemaKey)
        → IsSeparable j
        → o.has_schema t j ≡ ((b && key_beq k j) || o.has_schema s j))

  Adds-outcome :
      (s : o.State) (sc : Schema)
      → IsSeparable (key_of sc)
      → (r : Result (Unit {0})) → (o.add_schema s sc).0 ≡ r
      → Adds (key_of sc) s (o.add_schema s sc).1
  Adds-outcome s sc k (ok tt) e = (true, λ j hj. law.has_schema-add_schema s sc j k hj e)
  Adds-outcome s sc k (err x) e =
      (false, λ j hj. ap (λ t. o.has_schema t j) (law.add_schema_failed s sc (λ g. cc)))
  Adds-outcome s sc k panic e =
      (false, λ j hj. ap (λ t. o.has_schema t j) (law.add_schema_failed s sc (λ g. cc)))

  outcome_of-state : (r : Result (Unit {0}) × o.State) → (outcome_of o h annotate r).1 ≡ r.1
  outcome_of-state (ok u, s) = refl
  outcome_of-state (err e, s) = refl
  outcome_of-state (panic, s) = refl

  Adds-parsed :
      (c : SchemaConfig) (s : o.State) (r : Result Schema)
      → new_schema h annotate c ≡ r
      → IsSeparable (key_in c)
      → Adds (key_in c) s (add_parsed o h annotate r s).1
  Adds-parsed c s (err e) r k = (false, λ j hj. refl)
  Adds-parsed c s panic r k = (false, λ j hj. refl)
  Adds-parsed c s (ok sc) r k =
      let keyed : key_of sc ≡ key_in c = ap key_in (new_schema-config h annotate c r).2 in
      subst (λ n. Adds n s (outcome_of o h annotate (o.add_schema s sc)).1) keyed
        (subst (Adds (key_of sc) s) (sym (outcome_of-state (o.add_schema s sc)))
          (Adds-outcome s sc (subst IsSeparable (sym keyed) k) _ refl))

  pub Adds-advance :
      (c : SchemaConfig) (p : Progress) (s : o.State)
      → IsSeparable (key_in c)
      → Adds (key_in c) s (advance o h annotate c p s).1
  unfolding advance
  Adds-advance c starting s k = (false, λ j hj. refl)
  Adds-advance c absent s k = Adds-parsed c s (new_schema h annotate c) refl k
  Adds-advance c (ended x) s k = (false, λ j hj. refl)

  There-outcome :
      (s : o.State) (sc : Schema)
      → IsSeparable (key_of sc)
      → (r : Result (Unit {0})) → (o.add_schema s sc).0 ≡ r
      → IsThere (outcome_of o h annotate (r, (o.add_schema s sc).1)).0
      → o.has_schema (o.add_schema s sc).1 (key_of sc) ≡ true
  There-outcome s sc k (ok tt) e t =
      law.has_schema-add_schema s sc (key_of sc) k k e ∙ rw (beq_refl (key_of sc))
  There-outcome s sc k (err x) e t = absurd t
  There-outcome s sc k panic e t = absurd t

  There-parsed :
      (c : SchemaConfig) (s : o.State) (r : Result Schema)
      → new_schema h annotate c ≡ r
      → IsSeparable (key_in c)
      → IsThere (add_parsed o h annotate r s).0
      → o.has_schema (add_parsed o h annotate r s).1 (key_in c) ≡ true
  There-parsed c s (err e) r k t = absurd t
  There-parsed c s panic r k t = absurd t
  There-parsed c s (ok sc) r k t =
      let keyed : key_of sc ≡ key_in c = ap key_in (new_schema-config h annotate c r).2 in
      rw (outcome_of-state (o.add_schema s sc)) (
        subst (λ n. o.has_schema (o.add_schema s sc).1 n ≡ true) keyed
          (There-outcome s sc (subst IsSeparable (sym keyed) k) (o.add_schema s sc).0 refl t))

  There-if : (b : Bool) → IsThere (if b then ended existing else absent) → b ≡ true
  There-if true t = refl
  There-if false t = absurd t

  pub There-advance :
      (c : SchemaConfig) (p : Progress) (s : o.State)
      → IsSeparable (key_in c)
      → (IsThere p → o.has_schema s (key_in c) ≡ true)
      → IsThere (advance o h annotate c p s).0
      → o.has_schema (advance o h annotate c p s).1 (key_in c) ≡ true
  unfolding advance
  There-advance c starting s k before t = There-if (o.has_schema s (key_in c)) t
  There-advance c absent s k before t = There-parsed c s (new_schema h annotate c) refl k t
  There-advance c (ended x) s k before t = before t

  -- The goroutines that ended well have their schemas in the store.
  abbrev pub AllThere : List Task → o.State → Type 0
  AllThere ts s = All (λ t. IsThere t.1 → o.has_schema s (key_in t.0) ≡ true) ts

  -- No schema is lost, and each new one is configured.
  pub record Grows (cs : List SchemaConfig) (s t : o.State) : Type 0 where
    pub kept : (j : SchemaKey) → IsSeparable j → o.has_schema s j ≡ true → o.has_schema t j ≡ true
    pub only :
        (j : SchemaKey)
        → IsSeparable j
        → o.has_schema t j ≡ true
        → (o.has_schema s j ≡ true) ⊎ IsConfigured j cs

  pub Grows-refl : (cs : List SchemaConfig) (s : o.State) → Grows cs s s
  Grows-refl cs s = record { kept = λ j hj e. e; only = λ j hj e. inl e }

  pub Grows-trans :
      (cs : List SchemaConfig) (s t u : o.State) → Grows cs s t → Grows cs t u → Grows cs s u
  Grows-trans cs s t u g g' = record {
    kept = λ j hj e. g'.kept j hj (g.kept j hj e);
    only = λ j hj e. elim (g'.only j hj e) [ inl e' ↦ g.only j hj e' | inr i ↦ inr i ];
  }

  pub Grows-Adds :
      (c : SchemaConfig) (cs : List SchemaConfig) (s t : o.State)
      → Adds (key_in c) s t
      → Grows (c ∷ cs) s t
  Grows-Adds c cs s t (b, a) = record {
    kept = λ j hj e. a j hj ∙ ground (arith, e);
    only = λ j hj e. split b j (sym (a j hj) ∙ e);
  }
    where
      split :
          (b : Bool) (j : SchemaKey)
          → ((b && key_beq (key_in c) j) || o.has_schema s j) ≡ true
          → (o.has_schema s j ≡ true) ⊎ IsConfigured j (c ∷ cs)
      split false j e = inl e
      split true j e = elim (Bool-cases (key_beq (key_in c) j)) [
        | inl same ↦ inr (inl ((key_beq_iff (key_in c) j).0 same))
        | inr other ↦ inl (rw other at e)
      ]

  pub Grows-more :
      (c : SchemaConfig) (cs : List SchemaConfig) (s t : o.State)
      → Grows cs s t
      → Grows (c ∷ cs) s t
  Grows-more c cs s t g = record {
    kept = g.kept;
    only = λ j hj e. elim (g.only j hj e) [ inl e' ↦ inl e' | inr i ↦ inr (inr i) ];
  }

  pub AllThere-Grows :
      (cs : List SchemaConfig) (ts : List Task) (s t : o.State)
      → AllSeparable (configs ts)
      → Grows cs s t
      → AllThere ts s
      → AllThere ts t
  AllThere-Grows cs [] s t k g a = tt
  AllThere-Grows cs ((c, p) ∷ ts) s t (k, ks) g (a, as') =
      (λ i. g.kept (key_in c) k (a i), AllThere-Grows cs ts s t ks g as')
