-- ===== src/Store/Persist/Found/Tests.antt =====
-- A codec that reads back what it wrote, and the theorem at a schema that it stores.
use sdcio_schema_server.Base.{
  subst, sym, ◌⊎◌, inl, inr, All, arith, ◌≡◌, refl, ap, ◌∙◌, Bool, ℕ, zero, suc, true, false,
  Option, none, some, List, [], ◌∷◌, ◌++◌, Str, codes, length, take, drop, take-length, drop-length,
  Result, ok, err, external,
}
use sdcio_schema_server.Sdcpb.{
  SdcPath, SchemaElem, container, field, leaflist, ContainerSchema, LeafSchema, LeafListSchema,
  MustStatement, ChoiceInfo,
}
use sdcio_schema_server.Yang.{Entry, node, end, child, dir, Node, root_name}
use sdcio_schema_server.Schema.Tests.{kinds}
use sdcio_schema_server.Schema.Element.Choice.{get_choice_info}
use sdcio_schema_server.Schema.Children.{get_children}
use sdcio_schema_server.Schema.Container.{schema_elem_from}
use sdcio_schema_server.Schema.Load.{Schema, root_attrs}
use sdcio_schema_server.Schema.References.Kept.{InDir, InTree, later, self, deeper, first}
use sdcio_schema_server.Store.{key_of, config_of}
use sdcio_schema_server.Store.Keys.{get_entry_path}
use sdcio_schema_server.Store.Badger.{Libs, IsReliable}
use sdcio_schema_server.Store.Persist.{PersistStore, add_schema}
use sdcio_schema_server.Store.Persist.Reads.{get_schema_at}
use sdcio_schema_server.Store.Persist.Stored.{ok_inj}
use sdcio_schema_server.Store.Persist.Found.{IsCodec, InSchema, at_root, below_root}
use sdcio_schema_server.Store.Persist.Found.Named.{HasPlainNames, get_schema_at_stored}
use sdcio_schema_server.Store.Keys.Paths.{IsPlain}
use sdcio_schema_server.Xpath.Strings.{to_strings}
use sdcio_schema_server.Store.Sample.{libs, libs-IsReliable, no_notes, srl_name}

-- The containers that the codec stores: at most one child, and nothing else but a name and bounds.
abbrev plain : Str → List Str → ℕ → ℕ → ContainerSchema
plain n kids hi lo = record {
  name = n;
  namespace = [];
  prefix = [];
  description = [];
  keys = [];
  fields = [];
  leaflists = [];
  children = kids;
  must_statements = [];
  is_state = false;
  is_presence = false;
  is_user_ordered = false;
  max_elements = hi;
  min_elements = lo;
  choice_info = none;
  if_feature = [];
}

abbrev payload_of :
    Str
    → Str
    → Str
    → List LeafSchema
    → List LeafSchema
    → List LeafListSchema
    → List MustStatement
    → Bool
    → Bool
    → Bool
    → Option ChoiceInfo
    → List Str
    → Result Str
    → Result Str
payload_of [] [] [] [] [] [] [] false false false none [] v = v
payload_of _ _ _ _ _ _ _ _ _ _ _ _ v = err (external [])

abbrev name_and_child : Str → List Str → ℕ → ℕ → Result Str
name_and_child n [] hi lo = ok (zero ∷ (hi ∷ (lo ∷ n)))
name_and_child n (c ∷ []) hi lo = ok (suc (length n) ∷ (hi ∷ (lo ∷ (n ++ zero ∷ c))))
name_and_child n (c ∷ (d ∷ ds)) hi lo = err (external [])

abbrev marshal_plain : SchemaElem → Result Str
marshal_plain (container c) =
    payload_of c.namespace c.prefix c.description c.keys c.fields c.leaflists c.must_statements
      c.is_state c.is_presence c.is_user_ordered c.choice_info c.if_feature
      (name_and_child c.name c.children c.max_elements c.min_elements)
marshal_plain (field f) = err (external [])
marshal_plain (leaflist f) = err (external [])

abbrev unmarshal_plain : Str → Result SchemaElem
unmarshal_plain (zero ∷ (hi ∷ (lo ∷ n))) = ok (container (plain n [] hi lo))
unmarshal_plain (suc k ∷ (hi ∷ (lo ∷ t))) =
    ok (container (plain (take k t) (drop (suc k) t ∷ []) hi lo))
unmarshal_plain b = err (external b)

payload_of-ok :
    (name : Str) (kids : List Str) (hi lo : ℕ) (v : Result Str) (b : Str) (ns px desc : Str)
    (keys fs : List LeafSchema) (ls : List LeafListSchema) (musts : List MustStatement)
    (st pr uo : Bool) (info : Option ChoiceInfo) (feats : List Str)
    → payload_of ns px desc keys fs ls musts st pr uo info feats v ≡ ok b
    → (v ≡ ok b)
      × (plain name kids hi lo ≡ record {
        name = name;
        namespace = ns;
        prefix = px;
        description = desc;
        keys = keys;
        fields = fs;
        leaflists = ls;
        children = kids;
        must_statements = musts;
        is_state = st;
        is_presence = pr;
        is_user_ordered = uo;
        max_elements = hi;
        min_elements = lo;
        choice_info = info;
        if_feature = feats;
      })
payload_of-ok name kids hi lo v b [] [] [] [] [] [] [] false false false none [] h = (h, refl)
payload_of-ok name kids hi lo v b (x ∷ xs) px desc keys fs ls musts st pr uo info feats h = cc
payload_of-ok name kids hi lo v b [] (x ∷ xs) desc keys fs ls musts st pr uo info feats h = cc
payload_of-ok name kids hi lo v b [] [] (x ∷ xs) keys fs ls musts st pr uo info feats h = cc
payload_of-ok name kids hi lo v b [] [] [] (x ∷ xs) fs ls musts st pr uo info feats h = cc
payload_of-ok name kids hi lo v b [] [] [] [] (x ∷ xs) ls musts st pr uo info feats h = cc
payload_of-ok name kids hi lo v b [] [] [] [] [] (x ∷ xs) musts st pr uo info feats h = cc
payload_of-ok name kids hi lo v b [] [] [] [] [] [] (x ∷ xs) st pr uo info feats h = cc
payload_of-ok name kids hi lo v b [] [] [] [] [] [] [] true pr uo info feats h = cc
payload_of-ok name kids hi lo v b [] [] [] [] [] [] [] false true uo info feats h = cc
payload_of-ok name kids hi lo v b [] [] [] [] [] [] [] false false true info feats h = cc
payload_of-ok name kids hi lo v b [] [] [] [] [] [] [] false false false (some i) feats h = cc
payload_of-ok name kids hi lo v b [] [] [] [] [] [] [] false false false none (x ∷ xs) h = cc

unmarshal-name_and_child :
    (n : Str) (kids : List Str) (hi lo : ℕ) (b : Str)
    → name_and_child n kids hi lo ≡ ok b
    → unmarshal_plain b ≡ ok (container (plain n kids hi lo))
unmarshal-name_and_child n [] hi lo b h = rw (← ok_inj h) refl
unmarshal-name_and_child n (c ∷ []) hi lo b h =
    rw (← ok_inj h) (rw (take-length n (zero ∷ c), drop-length n c zero) refl)
unmarshal-name_and_child n (c ∷ (d ∷ ds)) hi lo b h = cc

unmarshal-marshal_plain :
    (e : SchemaElem) (b : Str) → marshal_plain e ≡ ok b → unmarshal_plain b ≡ ok e
unmarshal-marshal_plain (container c) b h =
    let (made, same) =
      payload_of-ok c.name c.children c.max_elements c.min_elements _ b c.namespace c.prefix
        c.description c.keys c.fields c.leaflists c.must_statements c.is_state c.is_presence
        c.is_user_ordered c.choice_info c.if_feature h in
    unmarshal-name_and_child c.name c.children c.max_elements c.min_elements b made
    ∙ ap (λ d. ok (container d)) same
unmarshal-marshal_plain (field f) b h = cc
unmarshal-marshal_plain (leaflist f) b h = cc

abbrev plain_libs : Libs
plain_libs = record libs { marshal = marshal_plain; unmarshal = unmarshal_plain }

plain-IsReliable : IsReliable plain_libs
plain-IsReliable = record {
  value_copy_ok = libs-IsReliable.value_copy_ok;
  get-flush_written = libs-IsReliable.get-flush_written;
  get-flush_other = libs-IsReliable.get-flush_other;
  get-drop_gone = libs-IsReliable.get-drop_gone;
  get-drop_kept = libs-IsReliable.get-drop_kept;
  unmarshal-marshal_sources = libs-IsReliable.unmarshal-marshal_sources;
}

plain-IsCodec : IsCodec plain_libs
plain-IsCodec = record { unmarshal-marshal = unmarshal-marshal_plain }

-- module sys { container clock { } }
abbrev clock : Entry
clock = node (record root_attrs { name = codes "clock" }) end

abbrev sys_module : Entry
sys_module = node (record root_attrs { name = codes "sys" }) (child (codes "clock") clock end)

abbrev sys_root : Entry
sys_root = node root_attrs (child (codes "sys") sys_module end)

abbrev sys_schema : Schema
sys_schema = record {
  config = config_of srl_name (codes "srl.yang" ∷ []) [] [];
  root = sys_root;
  notes = no_notes;
  status = codes "ok";
}

abbrev clock_node : Node
clock_node = record { here = clock; above = sys_module ∷ [] }

abbrev empty_store : PersistStore plain_libs
empty_store = record { cache_with_description = false; db = []; cache = none }

abbrev clock_path : SdcPath
clock_path = record {
  origin = [];
  target = [];
  elem = record { name = codes "sys:clock"; key = [] } ∷ [];
}

added_sys : (add_schema plain_libs kinds empty_store sys_schema).0 ≡ ok tt
unfolding add_schema get_choice_info get_children
added_sys = refl

ok_plain :
    (ps ns : List Str)
    → All IsPlain ps
    → ◌≡◌ {A = Result (List Str)} (ok ps) (ok ns)
    → All IsPlain ns
ok_plain ps ns h e = subst (All IsPlain) (ok_inj e) h

no_end : {above : List Entry} {m : Node} → InDir above end m → ⊥
no_end i = elim i [ ]

in_clock :
    (above : List Entry) (m : Node)
    → InTree above clock m
    → m ≡ record { here = clock; above = above }
in_clock above m self = refl
in_clock above m (deeper i) = absurd (no_end i)

abbrev sys_node : Node
sys_node = record { here = sys_module; above = [] }

in_sys : (m : Node) → InTree [] sys_module m → (m ≡ sys_node) ⊎ (m ≡ clock_node)
in_sys m self = inl refl
in_sys m (deeper (first i)) = inr (in_clock (sys_module ∷ []) m i)
in_sys m (deeper (later i)) = absurd (no_end i)

in_root : (m : Node) → InDir [] (dir sys_root) m → (m ≡ sys_node) ⊎ (m ≡ clock_node)
in_root m (first i) = in_sys m i
in_root m (later i) = absurd (no_end i)

-- The three paths of the schema.
abbrev PlainAt : Node → Type 0
PlainAt n = (ns : List Str) → get_entry_path kinds n ≡ ok ns → All IsPlain ns

sys_plain : IsPlain (codes "sys")
sys_plain = record { no_colon = omega arith; no_slash = omega arith }

clock_plain : IsPlain (codes "clock")
clock_plain = record { no_colon = omega arith; no_slash = omega arith }

root_plain : IsPlain root_name
root_plain = record { no_colon = omega arith; no_slash = omega arith }

sys_names : (n : Node) → InSchema kinds sys_root n → PlainAt n
unfolding get_entry_path
sys_names n at_root = λ ns h. ok_plain _ ns (root_plain, tt) h
sys_names n (below_root i shown) = elim (in_root n i) [
  | inl e ↦ subst PlainAt (sym e) (λ ns h. ok_plain _ ns (sys_plain, tt) h)
  | inr e ↦ subst PlainAt (sym e) (λ ns h. ok_plain _ ns (sys_plain, (clock_plain, tt)) h)
]

sys-HasPlainNames : HasPlainNames kinds sys_root
sys-HasPlainNames = record { plain = λ n ns i h. sys_names n i ns h }

get_schema_at_stored_example :
    (e : SchemaElem) × (n : Node) × InSchema kinds sys_root n
    × (get_entry_path kinds n ≡ ok (codes "sys" ∷ (codes "clock" ∷ [])))
    × (schema_elem_from kinds no_notes true n ≡ ok e)
    × ((get_schema_at plain_libs
          (add_schema plain_libs kinds empty_store sys_schema).1
          clock_path
          false
          (key_of sys_schema)).0
        ≡ ok e)
get_schema_at_stored_example =
    get_schema_at_stored plain_libs kinds plain-IsReliable plain-IsCodec empty_store sys_schema
      clock_node b's' (codes "ys") (codes "clock") [] clock_path false added_sys sys-HasPlainNames
      (below_root (first (deeper (first self))) refl) (unfold get_entry_path in refl) refl
      (unfold to_strings in refl) refl
