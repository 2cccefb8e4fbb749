-- ===== src/Xpath/Strings.antt =====
-- pkg/utils/path.go: `ToStrings`, `CompletePath` and `ToXPath`.
use sdcio_schema_server.Base.{
  is_nil, Bool, false, none, some, List, [], ◌∷◌, ◌++◌, map, Str, str_eq, Dict, lookup, keys,
  sort_strings, Result, ok, err, origin_twice, elems_with_origin, if◌then◌else◌,
}
use sdcio_schema_server.Sdcpb.{PathElem, SdcPath}
use sdcio_schema_server.Xpath.Parse.{open_bracket, close_bracket, slash, colon, equals, is_empty}

-- `m[k]`, the empty string where the key is missing.
unfoldable pub value_at : Dict Str Str → Str → Str
unfolding lookup
value_at m k = elim (lookup k m) [ none ↦ [] | some v ↦ v ]

unfoldable pub sorted_vals : Dict Str Str → List Str
unfolding sort_strings value_at
sorted_vals ((k, v) ∷ []) = v ∷ []
sorted_vals m = map (value_at m) (sort_strings (keys m))

-- The loop of `ToStrings` over the elements.
unfoldable pub elem_strings : Bool → List PathElem → List Str
unfolding sorted_vals
elem_strings nokeys [] = []
elem_strings nokeys (e ∷ es) =
    e.name ∷ ((if nokeys then [] else sorted_vals e.key) ++ elem_strings nokeys es)

abbrev pub unless_empty : Str → List Str
unless_empty [] = []
unless_empty (c ∷ s) = (c ∷ s) ∷ []

unfoldable pub to_strings : SdcPath → Bool → Bool → List Str
unfolding elem_strings
to_strings p prefix nokeys =
    (if prefix then unless_empty p.target ++ unless_empty p.origin else [])
    ++ elem_strings nokeys p.elem

unfoldable pub complete_path : SdcPath → SdcPath → Result (List Str)
unfolding to_strings
complete_path prefix path =
    let indexed = to_strings prefix false false in
    let rest = to_strings path false false in
    if is_empty prefix.origin
    then (if is_empty path.origin
        then ok (indexed ++ rest)
        else if is_nil indexed
        then ok ((path.origin ∷ []) ++ rest)
        else err elems_with_origin)
    else if is_empty path.origin
    then ok ((prefix.origin ∷ indexed) ++ rest)
    else err origin_twice

-- The loop of `ToXPath` over the sorted keys of an element.
unfoldable pub keys_text : Dict Str Str → List Str → Str
unfolding value_at
keys_text m [] = []
keys_text m (k ∷ ks) =
    open_bracket ∷ (k ++ equals ∷ (value_at m k ++ close_bracket ∷ keys_text m ks))

unfoldable pub elem_text : Bool → PathElem → Str
unfolding keys_text sort_strings
elem_text no_keys pe =
    pe.name ++ (if no_keys then [] else keys_text pe.key (sort_strings (keys pe.key)))

-- The loop of `ToXPath` over the elements, with a slash behind each but the last.
unfoldable pub elems_text : Bool → List PathElem → Str
unfolding elem_text
elems_text no_keys [] = []
elems_text no_keys (pe ∷ []) = elem_text no_keys pe
elems_text no_keys (pe ∷ (qe ∷ pes)) = elem_text no_keys pe ++ slash ∷ elems_text no_keys (qe ∷ pes)

abbrev pub origin_text : Str → Str
origin_text [] = []
origin_text (c ∷ s) = (c ∷ s) ++ colon ∷ []

unfoldable pub to_xpath : SdcPath → Bool → Str
unfolding elems_text
to_xpath p no_keys = origin_text p.origin ++ elems_text no_keys p.elem
