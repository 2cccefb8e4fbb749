-- ===== src/Xpath/Tests.antt =====
-- Runs of the parser and the printer, and the theorems at concrete paths.
use sdcio_schema_server.Base.{
  ◌≡◌, refl, List, [], ◌∷◌, ◌++◌, codes, ok, err, false, index_of, insert, sort_strings,
  malformed_xpath, arith,
}
use sdcio_schema_server.Sdcpb.{PathElem}
use sdcio_schema_server.Xpath.Parse.{parse_path, parse_xpath_keys, unescape, colon}
use sdcio_schema_server.Xpath.Strings.{to_xpath, elem_text}
use sdcio_schema_server.Xpath.Printable.{IsPrintable}
use sdcio_schema_server.Xpath.Origin.{
  path_of, StartsWithoutColon, with_name, parse_path-to_xpath, parse_path-to_xpath_origin,
}

-- interface[name=e1/1]/mtu
abbrev interface : PathElem
interface = record { name = codes "interface"; key = (codes "name", codes "e1/1") ∷ [] }

abbrev mtu : PathElem
mtu = record { name = codes "mtu"; key = [] }

abbrev mtu_path : List PathElem
mtu_path = interface ∷ (mtu ∷ [])

parse_path_keys : parse_path (codes "/interface[name=e1/1]/mtu") ≡ ok (path_of [] mtu_path)
unfolding parse_path index_of parse_xpath_keys insert unescape
parse_path_keys = refl

parse_path_open : parse_path (codes "/interface[name=e1/1") ≡ err malformed_xpath
unfolding parse_path index_of
parse_path_open = refl

interface-IsPrintable : IsPrintable interface
unfolding sort_strings
interface-IsPrintable = record {
  named = cc;
  name = omega arith;
  key = ((cc, cc, omega arith, omega arith, omega arith), tt);
  distinct = (tt, tt);
  sorted = refl;
}

mtu-IsPrintable : IsPrintable mtu
unfolding sort_strings
mtu-IsPrintable = record { named = cc; name = omega arith; key = tt; distinct = tt; sorted = refl }

mtu_path-StartsWithoutColon : StartsWithoutColon mtu_path
unfolding elem_text
mtu_path-StartsWithoutColon = omega arith

parse_path-to_xpath_example :
    parse_path (to_xpath (path_of [] mtu_path) false) ≡ ok (path_of [] mtu_path)
parse_path-to_xpath_example =
    parse_path-to_xpath mtu_path (interface-IsPrintable, (mtu-IsPrintable, tt))
      mtu_path-StartsWithoutColon

parse_path-to_xpath_origin_example :
    parse_path (to_xpath (path_of (codes "openconfig") mtu_path) false)
    ≡ ok (
        path_of []
          (with_name interface ((codes "openconfig" ++ colon ∷ []) ++ interface.name) ∷ (mtu ∷ [])))
parse_path-to_xpath_origin_example =
    parse_path-to_xpath_origin (codes "openconfig") interface (mtu ∷ []) (cc) (omega arith)
      (omega arith) (interface-IsPrintable, (mtu-IsPrintable, tt))
