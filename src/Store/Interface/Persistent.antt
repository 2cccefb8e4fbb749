-- ===== src/Store/Interface/Persistent.antt =====
-- The persistent store keeps the promises of the interface, if its libraries are reliable and its
-- database takes every write: a deletion
-- drops every schema whose version extends the deleted one.
use sdcio_schema_server.Base.{◌≡◌, ◌≢◌, refl, Result, ok, err, panic}
use sdcio_schema_server.Sdcpb.{CreateSchemaRequest}
use sdcio_schema_server.Yang.{Entry, Goyang}
use sdcio_schema_server.Schema.Element.{Annotations}
use sdcio_schema_server.Schema.Load.{Host, Schema}
use sdcio_schema_server.Store.Badger.{Libs, IsReliable, IsWritable}
use sdcio_schema_server.Store.Keys.Injective.{extends}
use sdcio_schema_server.Store.Persist.{
  PersistStore, has_schema, add_schema, add_parsed, created, create_schema, delete_schema,
}
use sdcio_schema_server.Store.Persist.Batch.{add_schema-Added, has_schema-Added}
use sdcio_schema_server.Store.Persist.Create.{has_schema-create_schema}
use sdcio_schema_server.Store.Persist.Delete.{
  delete_schema-Dropped, has_schema-delete_schema, delete_schema_failed,
}
use sdcio_schema_server.Store.Persist.Reload.{extends_refl, add_schema_failed}
use sdcio_schema_server.Store.Interface.{StoreOps, IsStore}

module _ (l : Libs) (y : Goyang) (h : Host) (annotate : Entry → Result Annotations) where
  abbrev pub persistent : StoreOps
  persistent = record {
    State = PersistStore l;
    has_schema = has_schema l;
    add_schema = add_schema l y;
    create_schema = create_schema l y h annotate;
    delete_schema = delete_schema l;
  }

  create_schema_failed :
      (w : IsWritable l) (s : PersistStore l) (r : CreateSchemaRequest)
      → (create_schema l y h annotate s r).0 ≢ ok tt
      → (create_schema l y h annotate s r).1 ≡ s
  unfolding create_schema
  create_schema_failed w s r g = unchanged (created l y h annotate s r) g
    where
      unchanged :
          (p : Result Schema)
          → (add_parsed l y h annotate s p).0 ≢ ok tt
          → (add_parsed l y h annotate s p).1 ≡ s
      unchanged (ok sc) k = add_schema_failed l y h annotate w s sc k
      unchanged (err e) k = refl
      unchanged panic k = refl

  pub persistent-IsStore : IsReliable l → IsWritable l → IsStore persistent extends
  persistent-IsStore r w = record {
    drops_self = extends_refl;
    has_schema-add_schema =
        λ s sc j hk hj g. has_schema-Added l y r j hk hj (add_schema-Added l y s sc g);
    add_schema_failed = λ s sc g. add_schema_failed l y h annotate w s sc g;
    has_schema-create_schema =
        λ s n fs ds xs j hn hj g. has_schema-create_schema l y h annotate fs ds xs r s n j hn hj g;
    create_schema_failed = create_schema_failed w;
    has_schema-delete_schema = λ s n j hn hj g.
        ((delete_schema-Dropped l s n g).present, has_schema-delete_schema l r s n j hn hj g);
    delete_schema_failed = λ s n g. delete_schema_failed l w s n g;
  }
