-- ===== src/Schema/Element/Choice.antt =====
-- pkg/schema/container.go: `getChoiceInfo`.
use sdcio_schema_server.Base.{
  Option, none, some, List, [], ◌∷◌, ◌++◌, Str, codes, join, Result, ok, panic, if◌then◌else◌,
}
use sdcio_schema_server.Sdcpb.{ChoiceInfo}
use sdcio_schema_server.Yang.{Entry, name, Dir, end, child, dir, Node, Goyang}

-- `strings.Join([]string{ee.Name, eee.Name}, "/")` for each entry of the case `ee`.
unfoldable pub case_paths : Str → Dir → List Str
unfolding join
case_paths c end = []
case_paths c (child k e d) = join (codes "/") (c ∷ (name e ∷ [])) ∷ case_paths c d

-- The loop over `choice.Dir`.
unfoldable pub alt_cases : Goyang → Dir → List Str
unfolding case_paths
alt_cases y end = []
alt_cases y (child k e d) =
    (if y.is_case e then case_paths (name e) (dir e) else []) ++ alt_cases y d

-- `choice.Name` and `cas.Name` are read when one of the two may be nil.
unfoldable pub choice_info_of : Goyang → Entry → Entry → Result (Option ChoiceInfo)
unfolding alt_cases
choice_info_of y cas choice =
    if y.is_case cas
    then (if y.is_choice choice
        then ok (
            some (record {
              choice = name choice;
              case_name = name cas;
              alt_case = alt_cases y (dir choice);
            }))
        else panic)
    else if y.is_choice choice
    then panic
    else ok none

unfoldable pub get_choice_info : Goyang → Node → Result (Option ChoiceInfo)
unfolding choice_info_of
get_choice_info y n = elim n.above [
  | [] ↦ ok none
  | p ∷ ps ↦ elim ps [ [] ↦ ok none | q ∷ qs ↦ choice_info_of y p q ]
]
