-- ===== src/Store/Keys/Injective.antt =====
-- What the keys of the database tell apart.
use sdcio_schema_server.Base.{
  ◌≡◌, refl, sym, ◌∙◌, Bool, true, false, ◌&&◌, some, [], ◌∷◌, ◌++◌, append-nil, append_assoc, Str,
  str_eq, str_beq, str_beq_iff, Lacks, cut_at-append, has_prefix, has_prefix-append,
  has_prefix_split, append_sep-injective, Bool-cases, inl, inr, ok, arith,
}
use sdcio_schema_server.Sdcpb.{SchemaName}
use sdcio_schema_server.Store.{SchemaKey, request_key}
use sdcio_schema_server.Store.Keys.{
  at_sign, schema_key_string, build_schema_key, build_entry_key, parse_schema_key,
}
use sdcio_schema_server.Store.Badger.{has_any_prefix}

-- A name and a vendor without the separator.
abbrev pub IsSeparable : SchemaKey → Type 0
IsSeparable k = Lacks at_sign k.name × Lacks at_sign k.vendor

-- The version of `j` begins with that of `k`, and the rest is the same.
abbrev pub extends : SchemaKey → SchemaKey → Bool
extends k j = str_beq k.name j.name && (str_beq k.vendor j.vendor && has_prefix k.version j.version)

pub parse_schema_key-build_schema_key :
    (n : SchemaName)
    → IsSeparable (request_key n)
    → parse_schema_key (build_schema_key (request_key n)) ≡ some n
unfolding parse_schema_key build_schema_key
parse_schema_key-build_schema_key n (h, k) =
    rw (cut_at-append at_sign n.name (n.vendor ++ at_sign ∷ n.version) h, parse_schema_key)
      (rw (cut_at-append at_sign n.vendor n.version k, parse_schema_key))

schema_key_parts :
    (j k : SchemaKey) (r : Str)
    → IsSeparable j
    → IsSeparable k
    → schema_key_string j ≡ schema_key_string k ++ r
    → (k.name ≡ j.name) × (k.vendor ≡ j.vendor) × (j.version ≡ k.version ++ r)
unfolding schema_key_string
schema_key_parts j k r (hj, vj) (hk, vk) e =
    let (same_name, rest) =
      append_sep-injective at_sign j.name k.name _ _ hj hk
        (e ∙ append_assoc k.name (at_sign ∷ (k.vendor ++ at_sign ∷ k.version)) r) in
    let (same_vendor, version) =
      append_sep-injective at_sign j.vendor k.vendor _ _ vj vk
        (rest ∙ append_assoc k.vendor (at_sign ∷ k.version) r) in
    (sym same_name, sym same_vendor, version)

-- Two schemas whose names and vendors hold no `@` have the same key only if they are the same.
pub build_schema_key-injective :
    (j k : SchemaKey)
    → IsSeparable j
    → IsSeparable k
    → build_schema_key j ≡ build_schema_key k
    → j ≡ k
unfolding build_schema_key
build_schema_key-injective j k hj hk e =
    let (n, v, w) =
      schema_key_parts j k [] hj hk (tail_eq e ∙ sym (append-nil (schema_key_string k))) in
    ground (arith, append-nil k.version)
  where
    tail_eq : {s t : Str} → ◌≡◌ {A = Str} (1 ∷ s) (1 ∷ t) → s ≡ t
    tail_eq e = cc

extends_of_prefix :
    (k j : SchemaKey)
    → IsSeparable k
    → IsSeparable j
    → has_prefix (build_schema_key k) (build_schema_key j) ≡ true
    → extends k j ≡ true
unfolding build_schema_key
extends_of_prefix k j hk hj h =
    let (r, e) = has_prefix_split _ _ h in
    let (n, v, w) = schema_key_parts j k r hj hk (tail_eq e) in
    ground (arith, (str_beq_iff k.name j.name).1 n, (str_beq_iff k.vendor j.vendor).1 v, prefix r w)
  where
    tail_eq : {s t : Str} → ◌≡◌ {A = Str} (1 ∷ s) (1 ∷ t) → s ≡ t
    tail_eq e = cc

    prefix : (r : Str) → j.version ≡ k.version ++ r → has_prefix k.version j.version ≡ true
    prefix r w = rw w (has_prefix-append k.version r)

has_prefix_same : (s p t : Str) → has_prefix (s ++ p) (s ++ t) ≡ has_prefix p t
unfolding has_prefix
has_prefix_same [] p t = refl
has_prefix_same (c ∷ s) p t = ground (arith, has_prefix_same s p t)

prefix_parts :
    (n v w n' v' w' : Str)
    → n ≡ n'
    → v ≡ v'
    → has_prefix w w' ≡ true
    → has_prefix (n ++ at_sign ∷ (v ++ at_sign ∷ w)) (n' ++ at_sign ∷ (v' ++ at_sign ∷ w')) ≡ true
prefix_parts n v w n' v' w' e f h =
    rw (e, f, has_prefix_same n')
      (has_prefix_same (at_sign ∷ []) (v' ++ at_sign ∷ w) (v' ++ at_sign ∷ w')
        ∙ (has_prefix_same v' (at_sign ∷ w) (at_sign ∷ w')
            ∙ (has_prefix_same (at_sign ∷ []) w w' ∙ h)))

prefix_of_extends :
    (k j : SchemaKey)
    → extends k j ≡ true
    → has_prefix (build_schema_key k) (build_schema_key j) ≡ true
unfolding build_schema_key
prefix_of_extends k j h =
    has_prefix_same (1 ∷ []) _ _
    ∙ prefix_parts k.name k.vendor k.version j.name j.vendor j.version
        ((str_beq_iff k.name j.name).0 (ground arith))
        ((str_beq_iff k.vendor j.vendor).0 (ground arith)) (ground arith)

objects_apart :
    (k j : SchemaKey) (objects : Str)
    → build_entry_key k ([] ∷ []) ≡ ok objects
    → has_prefix objects (build_schema_key j) ≡ false
unfolding build_entry_key build_schema_key has_prefix
objects_apart k j objects e = ground arith

has_any_prefix_of :
    (objects s t : Str) (b : Bool)
    → has_prefix objects t ≡ false
    → has_prefix s t ≡ b
    → has_any_prefix (objects ∷ (s ∷ [])) t ≡ b
unfolding has_any_prefix
has_any_prefix_of objects s t b h g = ground arith

-- The prefixes that a deletion drops reach the keys of exactly the schemas that extend the deleted
-- one.
pub has_any_prefix-extends :
    (k j : SchemaKey) (objects : Str)
    → IsSeparable k
    → IsSeparable j
    → build_entry_key k ([] ∷ []) ≡ ok objects
    → has_any_prefix (objects ∷ (build_schema_key k ∷ [])) (build_schema_key j) ≡ extends k j
has_any_prefix-extends k j objects hk hj e = elim (Bool-cases (extends k j)) [
  | inl h ↦ has_any_prefix_of objects _ _ (extends k j) apart (prefix_of_extends k j h ∙ sym h)
  | inr h ↦ elim (Bool-cases (has_prefix (build_schema_key k) (build_schema_key j))) [
    | inl g ↦ cc (extends_of_prefix k j hk hj g)
    | inr g ↦ has_any_prefix_of objects _ _ (extends k j) apart (g ∙ sym h)
  ]
]
  where
    apart : has_prefix objects (build_schema_key j) ≡ false
    apart = objects_apart k j objects e
