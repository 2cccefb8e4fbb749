-- ===== src/Schema/Lookup.antt =====
-- pkg/schema/object.go: `GetEntry` and `GetEntryCh`. Each call walks the maps in an order of its own:
-- a result holds for the order in which the entry lists its children, and two calls with the same
-- entry agree only if they happen on the same order.
use sdcio_schema_server.Base.{
  Option, none, some, List, [], ◌∷◌, Str, str_eq, ◌==◌, cut_at, Result, Error, ok, err, not_found,
  nothing_below, if◌then◌else◌,
}
use sdcio_schema_server.Yang.{
  Entry, Dir, end, child, name, dir, dir_is_nil, find, Node, below, Goyang,
}
use sdcio_schema_server.Schema.Children.{is_hidden, get_children}

-- `first`, the path `pe[offset:]`, and `pe[0]`, which loses its prefix if it has one.
pub record Query : Type 0 where
  pub first : Str
  pub head : Str
  pub rest : List Str

unfoldable pub query_of : Str → List Str → Query
unfolding cut_at
query_of p ps = elim (cut_at b':' p) [
  | none ↦ record { first = p; head = p; rest = ps }
  | some q ↦ elim q.0 [
    | [] ↦ record { first = p; head = p; rest = ps }
    | c ∷ s ↦ record { first = c ∷ s; head = q.1; rest = q.1 ∷ ps }
  ]
]

-- The first child with a name.
unfoldable pub named : Str → List Node → Option Node
named p [] = none
named p (n ∷ ns) = if name n.here == p then some n else named p ns

abbrev pub found_or : Node → Option Entry → Node
found_or n none = n
found_or n (some e) = below n e

-- The end of the path in `getEntry`: an entry of the same name below a choice or a case, or one of
-- these below a container.
unfoldable pub arrive : Goyang → Node → Node
unfolding find
arrive y n =
    if is_hidden y n.here
    then found_or n (find (name n.here) (dir n.here))
    else if y.is_container n.here
    then elim (find (name n.here) (dir n.here)) [
      | none ↦ n
      | some e ↦ if is_hidden y e then below n e else n
    ]
    else n

-- `getEntry`
unfoldable pub get_entry_from : Goyang → Node → List Str → Result Node
unfolding arrive get_children named
get_entry_from y n [] = ok (arrive y n)
get_entry_from y n (p ∷ ps) =
    if dir_is_nil n.here then err nothing_below else elim (named p (get_children y n)) [
      | none ↦ err (not_found p)
      | some c ↦ get_entry_from y c ps
    ]

-- The first module with a child named `first`, and that child.
unfoldable pub in_modules : Str → Dir → Option Node
unfolding find
in_modules first end = none
in_modules first (child k e d) = elim (find first (dir e)) [
  | none ↦ in_modules first d
  | some c ↦ some (record { here = c; above = e ∷ [] })
]

-- `GetEntry`; the modules are the `Dir` of the root.
unfoldable pub get_entry : Goyang → Entry → List Str → Result Node
unfolding query_of get_entry_from in_modules
get_entry y root [] = ok (record { here = root; above = [] })
get_entry y root (p ∷ ps) =
    let q = query_of p ps in
    elim (find q.first (dir root)) [
      | some e ↦ get_entry_from y (record { here = e; above = [] }) q.rest
      | none ↦ elim (in_modules q.first (dir root)) [
        | some c ↦ get_entry_from y c q.rest
        | none ↦ err (not_found q.head)
      ]
    ]

-- What was sent before the channel was closed, and the error.
pub record Sent : Type 0 where
  pub nodes : List Node
  pub error : Option Error

abbrev pub send : Node → Sent → Sent
send n s = record s { nodes = n ∷ s.nodes }

abbrev pub sent_of : Node → Option Entry → Sent
sent_of n none = record { nodes = []; error = none }
sent_of n (some e) = record { nodes = below n e ∷ []; error = none }

-- `getEntryCh`
unfoldable pub get_entry_ch_from : Goyang → Node → List Str → Sent
unfolding find get_children named
get_entry_ch_from y n [] =
    if is_hidden y n.here
    then sent_of n (find (name n.here) (dir n.here))
    else record { nodes = []; error = none }
get_entry_ch_from y n (p ∷ ps) =
    if dir_is_nil n.here
    then record { nodes = []; error = some nothing_below }
    else elim (named p (get_children y n)) [
      | none ↦ record { nodes = []; error = some (not_found p) }
      | some c ↦ send c (get_entry_ch_from y c ps)
    ]

-- `GetEntryCh`
unfoldable pub get_entry_ch : Goyang → Entry → List Str → Sent
unfolding query_of get_entry_ch_from in_modules
get_entry_ch y root [] = record { nodes = record { here = root; above = [] } ∷ []; error = none }
get_entry_ch y root (p ∷ ps) =
    let q = query_of p ps in
    elim (find q.first (dir root)) [
      | some e ↦ get_entry_ch_from y (record { here = e; above = [] }) q.rest
      | none ↦ elim (in_modules q.first (dir root)) [
        | some c ↦ send c (get_entry_ch_from y c q.rest)
        | none ↦ record { nodes = []; error = some (not_found q.head) }
      ]
    ]
