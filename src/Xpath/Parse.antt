-- ===== src/Xpath/Parse.antt =====
-- pkg/utils/path.go: `ParsePath` and the functions that it calls.
use sdcio_schema_server.Base.{
  ℕ, Bool, true, false, ◌&&◌, ◌||◌, not, Option, none, some, List, [], ◌∷◌, ◌++◌, Str, str_eq,
  cut_at, index_of, insert, Dict, Result, ok, err, malformed_xpath, malformed_xpath_key, ◌>>=◌,
  ◌>>◌, refuse, nat_beq, if◌then◌else◌,
}
use sdcio_schema_server.Sdcpb.{PathElem, SdcPath}

abbrev pub slash : ℕ
slash = b'/'

abbrev pub open_bracket : ℕ
open_bracket = b'['

abbrev pub close_bracket : ℕ
close_bracket = b']'

abbrev pub backslash : ℕ
backslash = 0x5c

abbrev pub colon : ℕ
colon = b':'

abbrev pub equals : ℕ
equals = b'='

abbrev pub is_empty : Str → Bool
is_empty [] = true
is_empty (c ∷ s) = false

-- `strings.Split(s, string(c))`: the first part, with what was read of it, and the others.
unfoldable pub split_from : ℕ → Str → Str → List Str
split_from c cur [] = cur ∷ []
split_from c cur (d ∷ s) =
    let stop = cur ∷ split_from c [] s in
    let more = split_from c (cur ++ d ∷ []) s in if nat_beq d c then stop else more

unfoldable pub split : ℕ → Str → List Str
unfolding split_from
split c s = split_from c [] s

-- `escapedBracketsReplacer`.
unfoldable pub unescape : Str → Str
unescape [] = []
unescape (c ∷ []) = c ∷ []
unescape (c ∷ (d ∷ s)) =
    let bracket = d ∷ unescape s in
    let other = c ∷ unescape (d ∷ s) in
    if nat_beq c backslash && (nat_beq d open_bracket || nat_beq d close_bracket)
    then bracket
    else other

-- The variables of the loop of `parseXPathKeys`; `cur` is the text s[start:i].
pub record KeyScan : Type 0 where
  pub in_key : Bool
  pub cur : Str
  pub prev : ℕ
  pub kvs : Dict Str Str

-- The end of a key: `eq`, the tests and the map entry.
unfoldable pub close_key : KeyScan → Option (Str × Str) → Result KeyScan
close_key st none = err malformed_xpath_key
close_key st (some (k, v)) = do
  refuse (is_empty k || is_empty v) malformed_xpath_key
  ok (record {
    in_key = false;
    cur = [];
    prev = close_bracket;
    kvs = insert (unescape k) (unescape v) st.kvs;
  })

-- One round of the loop of `parseXPathKeys`.
unfoldable pub key_step : KeyScan → ℕ → Result KeyScan
unfolding close_key
key_step st r =
    let next = record st { cur = st.cur ++ r ∷ []; prev = r } in
    if nat_beq r open_bracket
    then (if nat_beq st.prev backslash
        then ok next
        else if st.in_key
        then err malformed_xpath_key
        else ok (record st { in_key = true; cur = []; prev = r }))
    else if nat_beq r close_bracket
    then (if nat_beq st.prev backslash
        then ok next
        else if not st.in_key
        then err malformed_xpath_key
        else close_key st (cut_at equals st.cur))
    else ok next

unfoldable pub key_loop : KeyScan → Str → Result KeyScan
key_loop st [] = ok st
key_loop st (r ∷ s) = key_step st r >>= λ next. key_loop next s

abbrev pub key_start : KeyScan
key_start = record { in_key = false; cur = []; prev = 0; kvs = [] }

unfoldable pub parse_xpath_keys : Str → Result (Dict Str Str)
unfolding key_loop key_step
parse_xpath_keys s = do st ← key_loop key_start s; refuse st.in_key malformed_xpath_key; ok st.kvs

-- The loop of `toPathElem`: the text before the first `[` that is not escaped, and the text from it.
unfoldable pub find_bracket : ℕ → Str → Option (Str × Str)
find_bracket prev [] = none
find_bracket prev (r ∷ s) =
    if nat_beq r open_bracket && not (nat_beq prev backslash)
    then some ([], r ∷ s)
    else elim (find_bracket r s) [ none ↦ none | some p ↦ some (r ∷ p.0, p.1) ]

-- `idx > 0`: a bracket at the very start is no start of keys.
unfoldable pub elem_of : Str → Option (Str × Str) → Result PathElem
elem_of s none = ok (record { name = s; key = [] })
elem_of s (some ([], rest)) = ok (record { name = s; key = [] })
elem_of s (some ((c ∷ name), rest)) = do
  kvs ← parse_xpath_keys rest
  ok (record { name = c ∷ name; key = kvs })

unfoldable pub to_path_elem : Str → Result PathElem
unfolding elem_of find_bracket
to_path_elem s = elem_of s (find_bracket 0 s)

-- One round of the loop of `toPathElems`: the new `inKey`, and what is written to the buffer.
unfoldable pub scan_step : Bool → ℕ → ℕ → Result (Bool × ℕ)
scan_step in_key prev r =
    if nat_beq r open_bracket
    then (if in_key && not (nat_beq prev backslash)
        then err malformed_xpath
        else ok (in_key || not (nat_beq prev backslash), r))
    else if nat_beq r close_bracket
    then (if not in_key && not (nat_beq prev backslash)
        then err malformed_xpath
        else ok (in_key && nat_beq prev backslash, r))
    else if nat_beq r slash && not in_key
    then ok (in_key, 0)
    else ok (in_key, r)

-- The loop of `toPathElems`: the buffer that it fills.
unfoldable pub scan : Bool → ℕ → Str → Result Str
scan in_key prev [] = if in_key then err malformed_xpath else ok []
scan in_key prev (r ∷ s) = scan_step in_key prev r >>= λ t. scan t.0 r s >>= λ rest. ok (t.1 ∷ rest)

-- The second loop of `toPathElems`, over the parts of the buffer.
unfoldable pub elems_of : List Str → Result (List PathElem)
unfolding to_path_elem
elems_of [] = ok []
elems_of ([] ∷ parts) = elems_of parts
elems_of ((c ∷ s) ∷ parts) = do pe ← to_path_elem (c ∷ s); pes ← elems_of parts; ok (pe ∷ pes)

unfoldable pub ends_with_slash : Str → Bool
ends_with_slash [] = false
ends_with_slash (c ∷ []) = nat_beq c slash
ends_with_slash (c ∷ (d ∷ s)) = ends_with_slash (d ∷ s)

unfoldable pub to_path_elems : Str → Result (List PathElem)
unfolding ends_with_slash scan scan_step split elems_of
to_path_elems p = do
  buffer ← scan false 0 (if ends_with_slash p then p else p ++ slash ∷ [])
  elems_of (split 0 buffer)

-- What stands behind the origin's colon: nothing, or a slash.
abbrev pub ends_origin : Str → Bool
ends_origin [] = true
ends_origin (c ∷ s) = nat_beq c slash

abbrev pub is_some_index : Option ℕ → Bool
is_some_index none = false
is_some_index (some i) = true

abbrev pub starts_with_slash : Str → Bool
starts_with_slash [] = false
starts_with_slash (c ∷ s) = nat_beq c slash

-- The origin, and the rest of the path.
unfoldable pub take_origin : Str → Option (Str × Str) → Str × Str
take_origin p none = ([], p)
take_origin p (some (o, rest)) =
    if not (starts_with_slash p) && not (is_some_index (index_of slash o)) && ends_origin rest
    then (o, rest)
    else ([], p)

unfoldable pub parse_path : Str → Result SdcPath
unfolding take_origin cut_at to_path_elems
parse_path [] = ok (record { origin = []; target = []; elem = [] })
parse_path (c ∷ p) =
    let split = take_origin (c ∷ p) (cut_at colon (c ∷ p)) in
    to_path_elems split.1 >>= λ pes. ok (record { origin = split.0; target = []; elem = pes })
