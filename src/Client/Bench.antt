-- ===== src/Client/Bench.antt =====
-- client/cmd/schema_bench.go: the command that asks for all schema objects below a path. The
-- connection, the time limit and what is printed are left out; the answer of the server to a request
-- for a path is the parameter `get`. Nothing bounds the recursion but the schema of the server, so it
-- runs on fuel.
pub mod Counted
mod Tests
use sdcio_schema_server.Base.{
  ℕ, zero, suc, ◌+◌, List, [], ◌∷◌, ◌++◌, map, Str, Result, ok, panic, out_of_fuel,
}
use sdcio_schema_server.Sdcpb.{
  SdcPath, LeafSchema, ContainerSchema, SchemaElem, container, field, leaflist,
}
use sdcio_schema_server.Xpath.Parse.{parse_path}
use sdcio_schema_server.Server.Io.{Io, pure, fail, ◌>>=◌, lift}

-- The clone of a path with one more element.
abbrev pub extend : SdcPath → Str → SdcPath
extend p n = record p { elem = p.elem ++ record { name = n; key = [] } ∷ [] }

abbrev pub leaf_names : List LeafSchema → List Str
leaf_names ls = map (λ l. l.name) ls

module _ {S : Type 0} (get : SdcPath → Io S SchemaElem) where
  -- The loops over the keys and over the fields, with the number of objects so far.
  unfoldable pub query_leaves : SdcPath → List Str → ℕ → Io S ℕ
  query_leaves p [] n = pure n
  query_leaves p (k ∷ ks) n = get (extend p k) >>= λ e. query_leaves p ks (suc n)

  -- The loop over the children. An answer that is no container is a failed type assertion.
  unfoldable pub query_children :
      (SdcPath → ContainerSchema → Io S ℕ) → SdcPath → List Str → ℕ → Io S ℕ
  query_children query p [] n = pure n
  query_children query p (k ∷ ks) n = get (extend p k) >>= λ e. elim e [
    | container c ↦ query (extend p k) c >>= λ i. query_children query p ks (suc n + i)
    | field f ↦ lift panic
    | leaflist f ↦ lift panic
  ]

  -- `querySchemaContainer`
  unfoldable pub query_schema_container : ℕ → SdcPath → ContainerSchema → Io S ℕ
  unfolding query_leaves query_children
  query_schema_container zero p c = fail out_of_fuel
  query_schema_container (suc f) p c = query_leaves p (leaf_names c.keys) 0 >>= λ n.
      query_leaves p (leaf_names c.fields) n >>= λ m.
      query_children (query_schema_container f) p c.children m

  -- The number of objects that the command prints.
  unfoldable pub bench : ℕ → Str → Io S ℕ
  unfolding query_schema_container parse_path
  bench f xpath = lift (parse_path xpath) >>= λ p. get p >>= λ e. elim e [
    | container c ↦ query_schema_container f p c
    | field l ↦ pure 1
    | leaflist l ↦ pure 1
  ]
