-- ===== src/Xpath/RoundTrip.antt =====
-- `ParsePath` after `ToXPath`.
use sdcio_schema_server.Base.{
  ℕ, ◌≡◌, ◌≢◌, refl, ap, ◌∙◌, false, List, [], ◌∷◌, ◌++◌, append-nil, append_assoc, Str, Dict, keys,
  All, All-append, Lacks, ok, arith,
}
use sdcio_schema_server.Sdcpb.{PathElem}
use sdcio_schema_server.Xpath.Parse.{
  slash, open_bracket, close_bracket, equals, ends_with_slash, scan, split, split_from, elems_of,
  to_path_elem, to_path_elems,
}
use sdcio_schema_server.Xpath.Strings.{keys_text, value_at, elem_text, elems_text}
use sdcio_schema_server.Xpath.Printable.{IsKeyChar, IsNameChar, IsKeyText, IsPrintable}
use sdcio_schema_server.Xpath.Scan.{
  prepend, Copies, Copies-append, Copies-name, Copies-keys_text, scan-slash,
}
use sdcio_schema_server.Xpath.Keys.{value_at-keys, to_path_elem-elem_text}

-- The values at the keys of a printable element, whose keys are distinct.
key_values :
    (P : Str × Str → Type 0) (pe : PathElem)
    → IsPrintable pe
    → All P pe.key
    → All (λ k. P (k, value_at pe.key k)) (keys pe.key)
key_values P pe h = value_at-keys P [] pe.key (fresh pe.key) h.distinct
  where
    fresh : (l : Dict Str Str) → All (λ (p : Str × Str). Unit {0}) l
    fresh [] = tt
    fresh (q ∷ l) = (tt, fresh l)

All-map {ℓ} :
    {A : Type ℓ} (P Q : A → Type 0) (f : (a : A) → P a → Q a) (xs : List A) → All P xs → All Q xs
All-map P Q f [] h = tt
All-map P Q f (x ∷ xs) (p, h) = (f x p, All-map P Q f xs h)

Copies-elem_text : (pe : PathElem) → IsPrintable pe → Copies false (elem_text false pe) false
unfolding elem_text
Copies-elem_text pe h = rw h.sorted (
    Copies-append false false false pe.name (keys_text pe.key (keys pe.key))
      (Copies-name pe.name h.name)
      (Copies-keys_text pe.key (keys pe.key) (
        key_values (λ p. All IsKeyChar p.0 × All IsKeyChar p.1) pe h
          (All-map IsKeyText (λ p. All IsKeyChar p.0 × All IsKeyChar p.1) (λ p k. (k.2, k.4)) pe.key
            h.key))))

-- A property of characters that brackets, `=` and those of `P` have.
keys_text-All :
    (P : ℕ → Type 0) (m : Dict Str Str) (ks : List Str)
    → P open_bracket
    → P equals
    → P close_bracket
    → All (λ k. All P k × All P (value_at m k)) ks
    → All P (keys_text m ks)
unfolding keys_text
keys_text-All P m [] o e c h = tt
keys_text-All P m (k ∷ ks) o e c ((hk, hv), h) =
    (o, All-append P k _ hk (e, All-append P (value_at m k) _ hv (c, keys_text-All P m ks o e c h)))

elem_text-Lacks-zero : (pe : PathElem) → IsPrintable pe → Lacks 0 (elem_text false pe)
unfolding elem_text
elem_text-Lacks-zero pe h = rw h.sorted (
    All-append (λ d. d ≢ 0) pe.name _
      (All-map IsNameChar (λ d. d ≢ 0) (λ c n. n.0.0) pe.name h.name)
      (keys_text-All (λ d. d ≢ 0) pe.key (keys pe.key) (omega arith) (omega arith) (omega arith)
        (key_values (λ p. Lacks 0 p.0 × Lacks 0 p.1) pe h
          (All-map IsKeyText (λ p. Lacks 0 p.0 × Lacks 0 p.1)
            (λ p k. (
              All-map IsKeyChar (λ d. d ≢ 0) (λ c n. n.0) p.0 k.2,
              All-map IsKeyChar (λ d. d ≢ 0) (λ c n. n.0) p.1 k.4,
            ))
            pe.key h.key))))

-- The buffer of `toPathElems` on printed elements: each element's text, with a NUL behind it.
buffer : List PathElem → Str
buffer [] = []
buffer (pe ∷ pes) = elem_text false pe ++ 0 ∷ buffer pes

scan_end : scan false 0 [] ≡ ok []
unfolding scan
scan_end = refl

scan-elems_text :
    (pe : PathElem) (pes : List PathElem)
    → All IsPrintable (pe ∷ pes)
    → scan false 0 (elems_text false (pe ∷ pes) ++ slash ∷ []) ≡ ok (buffer (pe ∷ pes))
unfolding elems_text buffer
scan-elems_text pe [] (h, _) =
    Copies-elem_text pe h (slash ∷ [])
    ∙ ap (prepend (elem_text false pe)) (scan-slash [] ∙ ap (prepend (0 ∷ [])) scan_end)
scan-elems_text pe (qe ∷ pes) (h, hs) =
    rw (append_assoc (elem_text false pe) (slash ∷ elems_text false (qe ∷ pes)) (slash ∷ [])) (
      Copies-elem_text pe h (slash ∷ (elems_text false (qe ∷ pes) ++ slash ∷ []))
      ∙ ap (prepend (elem_text false pe)) (
          scan-slash (elems_text false (qe ∷ pes) ++ slash ∷ [])
          ∙ ap (prepend (0 ∷ [])) (scan-elems_text qe pes hs)))

split_from-Lacks :
    (cur n s : Str) → Lacks 0 n → split_from 0 cur (n ++ 0 ∷ s) ≡ (cur ++ n) ∷ split_from 0 [] s
unfolding split_from
split_from-Lacks cur [] s h = rw (append-nil cur)
split_from-Lacks cur (c ∷ n) s (hc, h) =
    ground (arith, split_from-Lacks (cur ++ c ∷ []) n s h, append_assoc cur (c ∷ []) n)

append-ne-nil : (n s : Str) → n ≢ [] → n ++ s ≢ []
append-ne-nil [] s e = absurd (e refl)
append-ne-nil (c ∷ n) s e = cc

elem_text-ne-nil : (pe : PathElem) → IsPrintable pe → elem_text false pe ≢ []
unfolding elem_text
elem_text-ne-nil pe h = append-ne-nil pe.name _ h.named

pub elems_text-ne-nil :
    (pe : PathElem) (pes : List PathElem) → IsPrintable pe → elems_text false (pe ∷ pes) ≢ []
unfolding elems_text
elems_text-ne-nil pe [] h = elem_text-ne-nil pe h
elems_text-ne-nil pe (qe ∷ pes) h = append-ne-nil (elem_text false pe) _ (elem_text-ne-nil pe h)

elems_of-cons :
    (s : Str) (parts : List Str) (pe : PathElem) (pes : List PathElem)
    → s ≢ []
    → to_path_elem s ≡ ok pe
    → elems_of parts ≡ ok pes
    → elems_of (s ∷ parts) ≡ ok (pe ∷ pes)
unfolding elems_of
elems_of-cons [] parts pe pes n h e = absurd (n refl)
elems_of-cons (c ∷ s) parts pe pes n h e = rw (h, e)

elems_of-buffer :
    (pes : List PathElem) → All IsPrintable pes → elems_of (split 0 (buffer pes)) ≡ ok pes
unfolding split buffer
elems_of-buffer [] h = unfold split_from elems_of in refl
elems_of-buffer (pe ∷ pes) (h, hs) =
    rw (split_from-Lacks [] (elem_text false pe) (buffer pes) (elem_text-Lacks-zero pe h)) (
      elems_of-cons (elem_text false pe) (split_from 0 [] (buffer pes)) pe pes
        (elem_text-ne-nil pe h) (to_path_elem-elem_text pe h) (elems_of-buffer pes hs))

ends_with_slash-cons : (c : ℕ) (s : Str) → s ≢ [] → ends_with_slash (c ∷ s) ≡ ends_with_slash s
unfolding ends_with_slash
ends_with_slash-cons c [] h = absurd (h refl)
ends_with_slash-cons c (d ∷ s) h = refl

ends_with_slash-append : (s t : Str) → t ≢ [] → ends_with_slash (s ++ t) ≡ ends_with_slash t
ends_with_slash-append [] t h = refl
ends_with_slash-append (c ∷ s) t h =
    ends_with_slash-cons c (s ++ t) (append_ne s) ∙ ends_with_slash-append s t h
  where
    append_ne : (u : Str) → u ++ t ≢ []
    append_ne [] = h
    append_ne (d ∷ u) = cc

keys_text_end :
    (m : Dict Str Str) (ks : List Str) (c : ℕ)
    → c ≢ slash
    → ends_with_slash (c ∷ keys_text m ks) ≡ false
unfolding keys_text
keys_text_end m [] c h = unfold ends_with_slash in ground arith
keys_text_end m (k ∷ ks) c h =
    ends_with_slash-append (c ∷ (open_bracket ∷ k)) _ (cc)
    ∙ (ends_with_slash-append (equals ∷ value_at m k) _ (cc)
        ∙ keys_text_end m ks close_bracket (omega arith))

name_end :
    (n : Str) (m : Dict Str Str) (ks : List Str)
    → n ≢ []
    → All IsNameChar n
    → ends_with_slash (n ++ keys_text m ks) ≡ false
name_end [] m ks e h = absurd (e refl)
name_end (c ∷ []) m ks e (hc, h) = keys_text_end m ks c hc.1
name_end (c ∷ (d ∷ n)) m ks e (hc, h) =
    ends_with_slash-cons c (d ∷ (n ++ keys_text m ks)) (cc) ∙ name_end (d ∷ n) m ks (cc) h

ends_with_slash-elems_text :
    (pe : PathElem) (pes : List PathElem)
    → All IsPrintable (pe ∷ pes)
    → ends_with_slash (elems_text false (pe ∷ pes)) ≡ false
unfolding elems_text
ends_with_slash-elems_text pe [] (h, _) =
    unfold elem_text in rw h.sorted (name_end pe.name pe.key (keys pe.key) h.named h.name)
ends_with_slash-elems_text pe (qe ∷ pes) (h, hs) =
    ends_with_slash-append (elem_text false pe) (slash ∷ elems_text false (qe ∷ pes)) (cc)
    ∙ (ends_with_slash-cons slash (elems_text false (qe ∷ pes)) (elems_text-ne-nil qe pes hs.0)
        ∙ ends_with_slash-elems_text qe pes hs)

-- The elements of a path are read back from their text.
pub to_path_elems-elems_text :
    (pe : PathElem) (pes : List PathElem)
    → All IsPrintable (pe ∷ pes)
    → to_path_elems (elems_text false (pe ∷ pes)) ≡ ok (pe ∷ pes)
unfolding to_path_elems
to_path_elems-elems_text pe pes h =
    rw (ends_with_slash-elems_text pe pes h, scan-elems_text pe pes h)
      (elems_of-buffer (pe ∷ pes) h)
