-- ===== src/Store/Interface.antt =====
-- pkg/store/store.go: the interface `Store`, with the operations that change the catalogue of
-- schemas, and what each store promises of them.
pub mod Memory
pub mod Persistent
pub mod Catalogue
mod Tests
use sdcio_schema_server.Base.{
  ◌≡◌, ◌≢◌, Bool, false, ◌&&◌, ◌||◌, not, Option, some, List, Str, Result, ok,
}
use sdcio_schema_server.Sdcpb.{SchemaName, CreateSchemaRequest}
use sdcio_schema_server.Schema.Load.{Schema}
use sdcio_schema_server.Store.{SchemaKey, key_beq, key_of, request_key, create_request}
use sdcio_schema_server.Store.Keys.Injective.{IsSeparable}

pub record StoreOps : Type 1 where
  pub State : Type 0
  pub has_schema : State → SchemaKey → Bool
  pub add_schema : State → Schema → Result (Unit {0}) × State
  pub create_schema : State → CreateSchemaRequest → Result (Unit {0}) × State
  pub delete_schema : State → Option SchemaName → Result (Unit {0}) × State

-- An operation that succeeds changes which schemas there are as it says, for names and vendors that
-- hold no `@`; one that fails changes nothing. What a deletion drops besides the schema that it names
-- is the relation `drops`.
pub record IsStore (o : StoreOps) (drops : SchemaKey → SchemaKey → Bool) : Type 0 where
  pub drops_self : (k : SchemaKey) → drops k k ≡ Bool.true
  pub has_schema-add_schema :
      (s : o.State) (sc : Schema) (j : SchemaKey)
      → IsSeparable (key_of sc)
      → IsSeparable j
      → (o.add_schema s sc).0 ≡ ok tt
      → o.has_schema (o.add_schema s sc).1 j ≡ (key_beq (key_of sc) j || o.has_schema s j)
  pub add_schema_failed :
      (s : o.State) (sc : Schema) → (o.add_schema s sc).0 ≢ ok tt → (o.add_schema s sc).1 ≡ s
  pub has_schema-create_schema :
      (s : o.State) (n : SchemaName) (fs ds xs : List Str) (j : SchemaKey)
      → IsSeparable (request_key n)
      → IsSeparable j
      → (o.create_schema s (create_request n fs ds xs)).0 ≡ ok tt
      → (o.has_schema s (request_key n) ≡ false)
        × (o.has_schema (o.create_schema s (create_request n fs ds xs)).1 j
            ≡ (key_beq (request_key n) j || o.has_schema s j))
  pub create_schema_failed :
      (s : o.State) (r : CreateSchemaRequest)
      → (o.create_schema s r).0 ≢ ok tt
      → (o.create_schema s r).1 ≡ s
  pub has_schema-delete_schema :
      (s : o.State) (n : SchemaName) (j : SchemaKey)
      → IsSeparable (request_key n)
      → IsSeparable j
      → (o.delete_schema s (some n)).0 ≡ ok tt
      → (o.has_schema s (request_key n) ≡ Bool.true)
        × (o.has_schema (o.delete_schema s (some n)).1 j
            ≡ (o.has_schema s j && not (drops (request_key n) j)))
  pub delete_schema_failed :
      (s : o.State) (n : Option SchemaName)
      → (o.delete_schema s n).0 ≢ ok tt
      → (o.delete_schema s n).1 ≡ s
