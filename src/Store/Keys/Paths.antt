-- ===== src/Store/Keys/Paths.antt =====
-- What the keys of entries tell apart: paths whose names hold no separator.
use sdcio_schema_server.Base.{
  ℕ, ◌≡◌, refl, sym, ◌∙◌, ◌⊎◌, inl, inr, List, [], ◌∷◌, ◌++◌, Str, All, Lacks, Result, ok, arith,
}
use sdcio_schema_server.Store.{SchemaKey}
use sdcio_schema_server.Store.Keys.{build_entry_key, schema_key_string, slashed, tail_text, colons}

-- Nothing, or what begins with a separator.
abbrev Begins : ℕ → Str → Type 0
Begins c t = (t ≡ []) ⊎ ((u : Str) × (t ≡ c ∷ u))

Begins-head : (c d : ℕ) (t u : Str) → Begins c t → t ≡ d ∷ u → d ≡ c
Begins-head c d t u (inl e) h = cc
Begins-head c d t u (inr (v, e)) h = ground (arith, e, h)

-- Texts that lack a separator, before what begins with it, are equal part by part.
append-Begins-injective :
    (c : ℕ) (s s' t t' : Str)
    → Lacks c s
    → Lacks c s'
    → Begins c t
    → Begins c t'
    → s ++ t ≡ s' ++ t'
    → (s ≡ s') × (t ≡ t')
append-Begins-injective c [] [] t t' h h' b b' e = (refl, e)
append-Begins-injective c [] (d ∷ s') t t' h (h', _) b b' e = absurd (h' (Begins-head c d t _ b e))
append-Begins-injective c (d ∷ s) [] t t' (h, _) h' b b' e =
    absurd (h (Begins-head c d t' _ b' (sym e)))
append-Begins-injective c (d ∷ s) (d' ∷ s') t t' (_, h) (_, h') b b' e =
    let (p, q) = append-Begins-injective c s s' t t' h h' b b' (ground arith) in (ground arith, q)

-- A name without the separators of an entry's key.
pub record IsPlain (s : Str) : Type 0 where
  pub no_colon : Lacks b':' s
  pub no_slash : Lacks b'/' s

slashed-Begins : (ps : List Str) → Begins b'/' (slashed ps)
unfolding slashed
slashed-Begins [] = inl refl
slashed-Begins (p ∷ ps) = inr (_, refl)

slashed-injective :
    (ps qs : List Str) → All IsPlain ps → All IsPlain qs → slashed ps ≡ slashed qs → ps ≡ qs
unfolding slashed
slashed-injective [] [] h g e = refl
slashed-injective [] (q ∷ qs) h g e = cc
slashed-injective (p ∷ ps) [] h g e = cc
slashed-injective (p ∷ ps) (q ∷ qs) (hp, hs) (gp, gs) e =
    let (same, rest) =
      append-Begins-injective b'/' p q _ _ hp.no_slash gp.no_slash (slashed-Begins ps)
        (slashed-Begins qs) (ground arith) in
    cc (same, slashed-injective ps qs hs gs rest)

append-injective : (s t u : Str) → s ++ t ≡ s ++ u → t ≡ u
append-injective [] t u e = e
append-injective (c ∷ s) t u e = append-injective s t u (ground arith)

tail_text-Begins : (ps : List Str) → Begins b':' (tail_text ps)
tail_text-Begins [] = inl refl
tail_text-Begins (p ∷ ps) = inr (_, refl)

tail_text-injective :
    (ps qs : List Str) → All IsPlain ps → All IsPlain qs → tail_text ps ≡ tail_text qs → ps ≡ qs
tail_text-injective [] [] h g e = refl
tail_text-injective [] (q ∷ qs) h g e = cc
tail_text-injective (p ∷ ps) [] h g e = cc
tail_text-injective (p ∷ ps) (q ∷ qs) h g e =
    slashed-injective (p ∷ ps) (q ∷ qs) h g (append-injective colons _ _ e)

-- The entries of one schema whose names hold no separator have the same key only if their paths are
-- the same.
pub build_entry_key-injective :
    (k : SchemaKey) (ps qs : List Str) (key : Str)
    → All IsPlain ps
    → All IsPlain qs
    → build_entry_key k ps ≡ ok key
    → build_entry_key k qs ≡ ok key
    → ps ≡ qs
unfolding build_entry_key
build_entry_key-injective k [] qs key h g e f = cc
build_entry_key-injective k (p ∷ ps) [] key h g e f = cc
build_entry_key-injective k (p ∷ ps) (q ∷ qs) key (hp, hs) (gp, gs) e f =
    let (same, rest) =
      append-Begins-injective b':' p q _ _ hp.no_colon gp.no_colon (tail_text-Begins ps)
        (tail_text-Begins qs)
        (append-injective colons _ _
          (append-injective (schema_key_string k) _ _ (behind (e ∙ sym f)))) in
    cc (same, tail_text-injective ps qs hs gs rest)
  where
    behind : {c : ℕ} {s t : Str} → ◌≡◌ {A = Result Str} (ok (c ∷ s)) (ok (c ∷ t)) → s ≡ t
    behind x = cc
