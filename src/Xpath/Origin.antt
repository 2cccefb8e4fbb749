-- ===== src/Xpath/Origin.antt =====
-- `ParsePath` on printed paths, with and without an origin.
use sdcio_schema_server.Base.{
  ◌≡◌, ◌≢◌, refl, ap, subst, ◌∙◌, true, false, Option, none, some, List, [], ◌∷◌, ◌++◌,
  append_assoc, Str, All, All-append, Lacks, cut_at, index_of, cut_at-append-Lacks, cut_at-append,
  cut_at-Lacks, Result, ok, ◌>>=◌, arith,
}
use sdcio_schema_server.Sdcpb.{PathElem, SdcPath}
use sdcio_schema_server.Xpath.Parse.{
  slash, colon, is_some_index, ends_origin, to_path_elems, take_origin, parse_path,
}
use sdcio_schema_server.Xpath.Strings.{elem_text, elems_text, to_xpath, origin_text}
use sdcio_schema_server.Xpath.Printable.{IsNameChar, IsPrintable}
use sdcio_schema_server.Xpath.RoundTrip.{elems_text-ne-nil, to_path_elems-elems_text}

abbrev pub path_of : Str → List PathElem → SdcPath
path_of origin es = record { origin = origin; target = []; elem = es }

parse_path-cons :
    (p : Str)
    → p ≢ []
    → parse_path p ≡ (
        to_path_elems (take_origin p (cut_at colon p)).1 >>= λ pes.
        ok (path_of (take_origin p (cut_at colon p)).0 pes))
unfolding parse_path
parse_path-cons [] h = absurd (h refl)
parse_path-cons (c ∷ p) h = refl

parse_path_at :
    (p o rest : Str)
    → p ≢ []
    → take_origin p (cut_at colon p) ≡ (o, rest)
    → parse_path p ≡ (to_path_elems rest >>= λ pes. ok (path_of o pes))
parse_path_at p o rest h e = rw (parse_path-cons p h, e)

index_of-mem : (t u : Str) → is_some_index (index_of slash ((t ++ slash ∷ []) ++ u)) ≡ true
unfolding index_of
index_of-mem [] u = ground arith
index_of-mem (c ∷ t) u = ground (arith, index_of-mem t u)

-- Text before the first colon that holds a slash is no origin.
take_origin-slash :
    (p s : Str) (o : Option (Str × Str))
    → take_origin p (elim o [ none ↦ none | some q ↦ some (((s ++ slash ∷ []) ++ q.0), q.1) ])
      ≡ ([], p)
unfolding take_origin
take_origin-slash p s none = refl
take_origin-slash p s (some (a, b)) = ground (arith, index_of-mem s a)

take_origin_later :
    (s t : Str)
    → Lacks colon s
    → take_origin (s ++ slash ∷ t) (cut_at colon (s ++ slash ∷ t)) ≡ ([], s ++ slash ∷ t)
take_origin_later s t h =
    subst (λ (u : Str). take_origin u (cut_at colon u) ≡ ([], u)) (append_assoc s (slash ∷ []) t)
      (rw
        (cut_at-append-Lacks colon (s ++ slash ∷ []) t
          (All-append (λ d. d ≢ colon) s (slash ∷ []) h (omega arith)))
        (take_origin-slash ((s ++ slash ∷ []) ++ t) s (cut_at colon t)))

-- The first element's text has no colon: no origin is read.
take_origin-elems_text :
    (pe : PathElem) (pes : List PathElem)
    → Lacks colon (elem_text false pe)
    → take_origin (elems_text false (pe ∷ pes)) (cut_at colon (elems_text false (pe ∷ pes)))
      ≡ ([], elems_text false (pe ∷ pes))
unfolding elems_text
take_origin-elems_text pe [] h =
    unfold take_origin in rw (cut_at-Lacks colon (elem_text false pe) h, take_origin)
take_origin-elems_text pe (qe ∷ pes) h =
    take_origin_later (elem_text false pe) (elems_text false (qe ∷ pes)) h

abbrev pub StartsWithoutColon : List PathElem → Type 0
StartsWithoutColon [] = Unit
StartsWithoutColon (pe ∷ pes) = Lacks colon (elem_text false pe)

-- Parsing the text of a path gives the path back, if it has no origin and no target, its elements
-- are printable and there is no colon in the text of the first.
pub parse_path-to_xpath :
    (es : List PathElem)
    → All IsPrintable es
    → StartsWithoutColon es
    → parse_path (to_xpath (path_of [] es) false) ≡ ok (path_of [] es)
unfolding to_xpath
parse_path-to_xpath [] h k = unfold parse_path elems_text in refl
parse_path-to_xpath (pe ∷ pes) h k =
    parse_path_at _ [] _ (elems_text-ne-nil pe pes h.0) (take_origin-elems_text pe pes k)
    ∙ rw (to_path_elems-elems_text pe pes h)

abbrev pub with_name : PathElem → Str → PathElem
with_name pe n = record { name = n; key = pe.key }

elems_text-with_name :
    (n : Str) (pe : PathElem) (pes : List PathElem)
    → elems_text false (with_name pe (n ++ pe.name) ∷ pes) ≡ n ++ elems_text false (pe ∷ pes)
unfolding elems_text elem_text
elems_text-with_name n pe [] = simp append_assoc
elems_text-with_name n pe (qe ∷ pes) = simp append_assoc

ends_origin-append : (n s : Str) → n ≢ [] → All IsNameChar n → ends_origin (n ++ s) ≡ false
ends_origin-append [] s e h = absurd (e refl)
ends_origin-append (c ∷ n) s e (hc, h) = ground arith

ends_origin-elems_text :
    (pe : PathElem) (pes : List PathElem)
    → IsPrintable pe
    → ends_origin (elems_text false (pe ∷ pes)) ≡ false
unfolding elems_text elem_text
ends_origin-elems_text pe [] h = ends_origin-append pe.name _ h.named h.name
ends_origin-elems_text pe (qe ∷ pes) h =
    rw append_assoc (ends_origin-append pe.name _ h.named h.name)

IsPrintable-with_name :
    (n : Str) (pe : PathElem)
    → All IsNameChar n
    → IsPrintable pe
    → IsPrintable (with_name pe (n ++ pe.name))
IsPrintable-with_name n pe hn h = record {
  named = λ e. h.named (right n e);
  name = All-append IsNameChar n pe.name hn h.name;
  key = h.key;
  distinct = h.distinct;
  sorted = h.sorted;
}
  where
    right : (m : Str) → m ++ pe.name ≡ [] → pe.name ≡ []
    right [] e = e
    right (c ∷ m) e = cc

origin_text_lem : (o : Str) → o ≢ [] → origin_text o ≡ o ++ colon ∷ []
origin_text_lem [] n = absurd (n refl)
origin_text_lem (c ∷ o) n = refl

take_origin_plain :
    (p o rest : Str) → ends_origin rest ≡ false → take_origin p (some (o, rest)) ≡ ([], p)
unfolding take_origin
take_origin_plain p o rest h = ground arith

take_origin_printed :
    (o rest : Str)
    → Lacks colon o
    → ends_origin rest ≡ false
    → take_origin ((o ++ colon ∷ []) ++ rest) (cut_at colon ((o ++ colon ∷ []) ++ rest))
      ≡ ([], (o ++ colon ∷ []) ++ rest)
take_origin_printed o rest k e =
    rw (append_assoc o (colon ∷ []) rest, cut_at-append colon o rest k)
      (take_origin_plain (o ++ colon ∷ rest) o rest e)

-- The text of a path with an origin, of name characters other than a colon, and with printable
-- elements, at least one, is not read back: the origin and its colon become part of the first
-- element's name.
pub parse_path-to_xpath_origin :
    (o : Str) (pe : PathElem) (pes : List PathElem)
    → o ≢ []
    → All IsNameChar o
    → Lacks colon o
    → All IsPrintable (pe ∷ pes)
    → parse_path (to_xpath (path_of o (pe ∷ pes)) false)
      ≡ ok (path_of [] (with_name pe ((o ++ colon ∷ []) ++ pe.name) ∷ pes))
unfolding to_xpath
parse_path-to_xpath_origin o pe pes n h k (hp, hs) = rw (origin_text_lem o n) (
    parse_path_at ((o ++ colon ∷ []) ++ elems_text false (pe ∷ pes)) []
      ((o ++ colon ∷ []) ++ elems_text false (pe ∷ pes)) (nonempty o n)
      (take_origin_printed o _ k (ends_origin-elems_text pe pes hp))
    ∙ rw (← elems_text-with_name (o ++ colon ∷ []) pe pes) (
        ap (λ (r : Result (List PathElem)). r >>= λ pes'. ok (path_of [] pes'))
          (to_path_elems-elems_text _ pes (
            IsPrintable-with_name (o ++ colon ∷ []) pe
                (All-append IsNameChar o (colon ∷ []) h (omega arith)) hp,
            hs,
          ))))
  where
    nonempty : (m : Str) → m ≢ [] → (m ++ colon ∷ []) ++ elems_text false (pe ∷ pes) ≢ []
    nonempty [] e = absurd (e refl)
    nonempty (c ∷ m) e = cc
