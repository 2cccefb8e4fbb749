-- ===== src/Config/Defaults.antt =====
-- What `validateSetDefaults` accepts, and what it makes of it.
use sdcio_schema_server.Base.{
  ℕ, zero, suc, ◌≡◌, ◌↔◌, refl, subst, true, false, Option, none, some, List, [], ◌∷◌, Str, All,
  Result, ok, err, panic, is_ok, ◌>>◌, >>=-eq-ok, if◌then◌else◌, arith,
}
use sdcio_schema_server.Config.{
  SchemaConfig, SchemaStoreConfig, GrpcServer, Config, validate_schema, validate_schemas,
  server_defaults, or_default, validate_set_defaults, is_empty, default_server_address,
  default_message_size, default_rpc_timeout,
}

-- A schema that is there, and names its vendor and its version.
abbrev pub IsNamed : Option SchemaConfig → Type 0
IsNamed none = ⊥
IsNamed (some sc) = (is_empty sc.vendor ≡ false) × (is_empty sc.version ≡ false)

-- The schemas of a configuration, none where there is no store.
abbrev pub schemas_of : Config → List (Option SchemaConfig)
schemas_of c = elim c.schema_store [ none ↦ [] | some s ↦ s.schemas ]

validate_schemas-IsNamed :
    (scs : List (Option SchemaConfig)) → is_ok (validate_schemas scs) ≡ true ↔ All IsNamed scs
unfolding validate_schemas validate_schema
validate_schemas-IsNamed [] = ground arith
validate_schemas-IsNamed (none ∷ scs) = ground arith
validate_schemas-IsNamed (some sc ∷ scs) = ground (arith, validate_schemas-IsNamed scs)

-- A server whose settings are all given.
abbrev pub IsComplete : GrpcServer → Type 0
IsComplete g =
    (is_empty g.address ≡ false)
    × (or_default 1 g.max_recv_msg_size ≡ g.max_recv_msg_size)
    × (or_default 1 g.rpc_timeout ≡ g.rpc_timeout)

or_default_idem : (d n : ℕ) → or_default d (or_default d n) ≡ or_default d n
or_default_idem zero zero = refl
or_default_idem (suc d) zero = refl
or_default_idem d (suc n) = refl

address_again :
    (a : Str)
    → (if is_empty (if is_empty a then default_server_address else a)
        then default_server_address
        else (if is_empty a then default_server_address else a))
      ≡ (if is_empty a then default_server_address else a)
address_again [] = refl
address_again (c ∷ a) = refl

server_defaults_idem :
    (g : Option GrpcServer) → server_defaults (some (server_defaults g)) ≡ server_defaults g
unfolding server_defaults
server_defaults_idem none = refl
server_defaults_idem (some g) = rw (
  address_again g.address,
  or_default_idem default_message_size g.max_recv_msg_size,
  or_default_idem default_rpc_timeout g.rpc_timeout,
)

is_ok-then {ℓ} : {A : Type ℓ} (m : Result (Unit {0})) (a : A) → is_ok (m >> ok a) ≡ is_ok m
is_ok-then (ok u) a = refl
is_ok-then (err e) a = refl
is_ok-then panic a = refl

-- A configuration is accepted exactly if each of its schemas is there and has
-- a vendor and a version.
pub validate_set_defaults-accepts :
    (c : Config) → is_ok (validate_set_defaults c) ≡ true ↔ All IsNamed (schemas_of c)
unfolding validate_set_defaults
validate_set_defaults-accepts c = accepts c.schema_store
  where
    accepts :
        (o : Option SchemaStoreConfig)
        → is_ok (validate_set_defaults (record c { schema_store = o })) ≡ true
          ↔ All IsNamed (schemas_of (record c { schema_store = o }))
    accepts none = ground arith
    accepts (some s) =
        rw (is_ok-then (validate_schemas s.schemas) _) (validate_schemas-IsNamed s.schemas)

-- The defaults are set once and for all: a configuration that comes out of the validation comes
-- out of a second one as it is.
pub validate_set_defaults_idem :
    (c c' : Config) → validate_set_defaults c ≡ ok c' → validate_set_defaults c' ≡ ok c'
unfolding validate_set_defaults
validate_set_defaults_idem c c' h = again c.schema_store h
  where
    Fixed : Config → Type 0
    Fixed d = validate_set_defaults d ≡ ok d

    ok_eq : {a b : Config} → ◌≡◌ {A = Result Config} (ok a) (ok b) → a ≡ b
    ok_eq k = cc

    again :
        (o : Option SchemaStoreConfig)
        → validate_set_defaults (record c { schema_store = o }) ≡ ok c'
        → validate_set_defaults c' ≡ ok c'
    again none e = subst Fixed (ok_eq e) (rw (server_defaults_idem c.grpc_server))
    again (some s) e =
        let (u, e1, r) = >>=-eq-ok (validate_schemas s.schemas) _ e in
        subst Fixed (ok_eq r) (rw (e1, server_defaults_idem c.grpc_server))
