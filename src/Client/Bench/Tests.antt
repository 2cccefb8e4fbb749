-- ===== src/Client/Bench/Tests.antt =====
-- The bench command against a server with one list.
use sdcio_schema_server.Base.{
  ◌≡◌, refl, [], ◌∷◌, codes, ok, index_of, if◌then◌else◌, arith, is_nil, cut_at,
}
use sdcio_schema_server.Sdcpb.{SdcPath, container, SchemaElem, ContainerSchema}
use sdcio_schema_server.Store.Sample.{two_keys}
use sdcio_schema_server.Server.Io.{Io, pure}
use sdcio_schema_server.Xpath.Parse.{parse_path}
use sdcio_schema_server.Client.Bench.{bench}
use sdcio_schema_server.Client.Bench.Counted.{
  Tree, tree, none_left, one_more, count, Serves, bench_counts,
}

-- The root has one list, with two keys and two fields.
abbrev below_root : ContainerSchema
below_root = record two_keys { name = []; keys = []; children = codes "entry" ∷ [] }

abbrev entry_list : ContainerSchema
entry_list = record two_keys { fields = two_keys.keys; children = [] }

-- Whatever is asked below the root, the answer is the list.
abbrev answer : SdcPath → SchemaElem
answer p = if is_nil p.elem then container below_root else container entry_list

abbrev server : SdcPath → Io Unit SchemaElem
server p = pure (answer p)

abbrev whole : Tree
whole = tree below_root (one_more (tree entry_list none_left) none_left)

abbrev root_path : SdcPath
root_path = record { origin = []; target = []; elem = [] }

abbrev entry_answer : SchemaElem
entry_answer = container entry_list

bench_counts_example : (bench server 6 (codes "/") tt).0 ≡ ok 5
unfolding count Serves
bench_counts_example =
    bench_counts server whole 6 (codes "/") root_path (unfold parse_path cut_at index_of in refl)
      (λ s. refl)
      (
        tt,
        tt,
        (
          (λ s. refl),
          (
            ((entry_answer, λ s. refl), ((entry_answer, λ s. refl), tt)),
            ((entry_answer, λ s. refl), ((entry_answer, λ s. refl), tt)),
            tt,
          ),
          tt,
        ),
      )
      (omega arith) tt
