-- ===== src/Xpath/Keys.antt =====
-- `toPathElem` and `parseXPathKeys` on the text of one printed element.
use sdcio_schema_server.Base.{
  ℕ, ◌≡◌, ◌≢◌, refl, sym, ap, subst, ◌∙◌, true, false, none, some, List, [], ◌∷◌, ◌++◌, append-nil,
  append_assoc, Str, str_eq, str_beq_iff, Dict, insert, lookup, keys, All, Lacks, cut_at-append, ok,
  arith,
}
use sdcio_schema_server.Sdcpb.{PathElem}
use sdcio_schema_server.Xpath.Parse.{
  open_bracket, close_bracket, backslash, equals, unescape, KeyScan, close_key, key_step, key_loop,
  parse_xpath_keys, find_bracket, elem_of, to_path_elem,
}
use sdcio_schema_server.Xpath.Strings.{keys_text, value_at, elem_text}
use sdcio_schema_server.Xpath.Printable.{
  IsKeyChar, IsNameChar, IsFresh, HasDistinctKeys, IsKeyText, IsPrintable,
}
use sdcio_schema_server.Xpath.Scan.{keys_text-cons}

pub unescape-IsKeyChar : (s : Str) → All IsKeyChar s → unescape s ≡ s
unfolding unescape
unescape-IsKeyChar [] h = refl
unescape-IsKeyChar (c ∷ []) h = refl
unescape-IsKeyChar (c ∷ (d ∷ s)) (hc, h) = ground (arith, unescape-IsKeyChar (d ∷ s) h)

abbrev last_of : ℕ → Str → ℕ
last_of p [] = p
last_of p (c ∷ n) = last_of c n

last_of-ne : (p : ℕ) (n : Str) → p ≢ backslash → All IsKeyChar n → last_of p n ≢ backslash
last_of-ne p [] hp h = hp
last_of-ne p (c ∷ n) hp (hc, h) = last_of-ne c n hc.3 h

-- The state inside a key, and between two keys.
abbrev reading : Str → ℕ → Dict Str Str → KeyScan
reading cur p kvs = record { in_key = true; cur = cur; prev = p; kvs = kvs }

abbrev between : Str → ℕ → Dict Str Str → KeyScan
between cur p kvs = record { in_key = false; cur = cur; prev = p; kvs = kvs }

key_loop-reading :
    (cur : Str) (p : ℕ) (kvs : Dict Str Str) (n s : Str)
    → All IsKeyChar n
    → key_loop (reading cur p kvs) (n ++ s) ≡ key_loop (reading (cur ++ n) (last_of p n) kvs) s
key_loop-reading cur p kvs [] s h = rw (append-nil cur)
key_loop-reading cur p kvs (c ∷ n) s (hc, h) =
    round
    ∙ (key_loop-reading (cur ++ c ∷ []) c kvs n s h
        ∙ ap (λ t. key_loop (reading t (last_of c n) kvs) s) (append_assoc cur (c ∷ []) n))
  where
    round :
        key_loop (reading cur p kvs) (c ∷ (n ++ s))
        ≡ key_loop (reading (cur ++ c ∷ []) c kvs) (n ++ s)
    round = unfold key_loop key_step in ground arith

key_loop-open :
    (cur : Str) (p : ℕ) (kvs : Dict Str Str) (s : Str)
    → p ≢ backslash
    → key_loop (between cur p kvs) (open_bracket ∷ s) ≡ key_loop (reading [] open_bracket kvs) s
unfolding key_loop key_step
key_loop-open cur p kvs s h = ground arith

key_step-close :
    (k v : Str) (p : ℕ) (kvs : Dict Str Str)
    → p ≢ backslash
    → k ≢ []
    → v ≢ []
    → All IsKeyChar k
    → All IsKeyChar v
    → Lacks equals k
    → key_step (reading (k ++ equals ∷ v) p kvs) close_bracket
      ≡ ok (between [] close_bracket (insert k v kvs))
unfolding key_step close_key
key_step-close k v p kvs hp nk nv hk hv he =
    ground (arith, cut_at-append equals k v he, unescape-IsKeyChar k hk, unescape-IsKeyChar v hv)

key_loop-entry :
    (cur : Str) (p : ℕ) (kvs : Dict Str Str) (k v s : Str)
    → p ≢ backslash
    → IsKeyText (k, v)
    → key_loop (between cur p kvs) ((open_bracket ∷ (k ++ equals ∷ (v ++ close_bracket ∷ []))) ++ s)
      ≡ key_loop (between [] close_bracket (insert k v kvs)) s
key_loop-entry cur p kvs k v s hp (nk, nv, hk, he, hv) =
    key_loop-open cur p kvs _ hp
    ∙ (ap (key_loop (reading [] open_bracket kvs)) (append_assoc k _ s)
        ∙ (key_loop-reading [] open_bracket kvs k _ hk
            ∙ (at_equals
                ∙ (ap (key_loop (reading (k ++ equals ∷ []) equals kvs)) (append_assoc v _ s)
                    ∙ (key_loop-reading (k ++ equals ∷ []) equals kvs v (close_bracket ∷ s) hv
                        ∙ at_close)))))
  where
    at_equals :
        key_loop
          (reading k (last_of open_bracket k) kvs)
          (equals ∷ ((v ++ close_bracket ∷ []) ++ s))
        ≡ key_loop (reading (k ++ equals ∷ []) equals kvs) ((v ++ close_bracket ∷ []) ++ s)
    at_equals = unfold key_loop key_step in refl

    at_close :
        key_loop (reading ((k ++ equals ∷ []) ++ v) (last_of equals v) kvs) (close_bracket ∷ s)
        ≡ key_loop (between [] close_bracket (insert k v kvs)) s
    at_close = rw (append_assoc k (equals ∷ []) v) (
        unfold key_loop in
        rw (
          key_step-close k v (last_of equals v) kvs (last_of-ne equals v (omega arith) hv) nk nv hk
            hv he))

insert_fresh : (k v : Str) (m : Dict Str Str) → IsFresh k m → insert k v m ≡ m ++ (k, v) ∷ []
unfolding insert
insert_fresh k v [] h = refl
insert_fresh k v ((j, w) ∷ m) (hj, h) = ground (arith, str_beq_iff j k, insert_fresh k v m h)

lookup-append-fresh :
    (k v : Str) (acc m : Dict Str Str) → IsFresh k acc → lookup k (acc ++ (k, v) ∷ m) ≡ some v
unfolding lookup
lookup-append-fresh k v [] m h = ground (arith, str_beq_iff k k)
lookup-append-fresh k v ((j, w) ∷ acc) m (hj, h) =
    ground (arith, str_beq_iff j k, lookup-append-fresh k v acc m h)

value_at-append-fresh :
    (k v : Str) (acc m : Dict Str Str) → IsFresh k acc → value_at (acc ++ (k, v) ∷ m) k ≡ v
unfolding value_at
value_at-append-fresh k v acc m h = ground (arith, lookup-append-fresh k v acc m h)

-- The keys of `m` are new to `acc`.
abbrev AreFresh : Dict Str Str → Dict Str Str → Type 0
AreFresh m acc = All (λ p. IsFresh p.0 acc) m

IsFresh-append :
    (k : Str) (acc : Dict Str Str) (p : Str × Str)
    → IsFresh k acc
    → p.0 ≢ k
    → IsFresh k (acc ++ p ∷ [])
IsFresh-append k [] p h e = (e, tt)
IsFresh-append k (q ∷ acc) p (hq, h) e = (hq, IsFresh-append k acc p h e)

AreFresh-append :
    (m acc : Dict Str Str) (p : Str × Str)
    → AreFresh m acc
    → IsFresh p.0 m
    → AreFresh m (acc ++ p ∷ [])
AreFresh-append [] acc p h e = tt
AreFresh-append (q ∷ m) acc p (hq, h) (eq, e) =
    (IsFresh-append q.0 acc p hq (λ r. eq (sym r)), AreFresh-append m acc p h e)

-- The values at the keys of a dictionary with distinct keys.
pub value_at-keys :
    (P : Str × Str → Type 0) (acc m : Dict Str Str)
    → AreFresh m acc
    → HasDistinctKeys m
    → All P m
    → All (λ k. P (k, value_at (acc ++ m) k)) (keys m)
value_at-keys P acc [] f d h = tt
value_at-keys P acc ((k, v) ∷ m) (fk, f) (dk, d) (hk, h) = (
  subst (λ w. P (k, w)) (sym (value_at-append-fresh k v acc m fk)) hk,
  subst (λ (a : Dict Str Str). All (λ j. P (j, value_at a j)) (keys m))
      (append_assoc acc ((k, v) ∷ []) m)
      (value_at-keys P (acc ++ (k, v) ∷ []) m (AreFresh-append m acc (k, v) f dk) d h),
)

key_loop-fresh_entry :
    (cur : Str) (p : ℕ) (acc : Dict Str Str) (k v w s : Str)
    → p ≢ backslash
    → IsKeyText (k, v)
    → IsFresh k acc
    → w ≡ v
    → key_loop (between cur p acc) ((open_bracket ∷ (k ++ equals ∷ (w ++ close_bracket ∷ []))) ++ s)
      ≡ key_loop (between [] close_bracket (acc ++ (k, v) ∷ [])) s
key_loop-fresh_entry cur p acc k v w s hp h f e =
    rw e (rw (insert_fresh k v acc f) at (key_loop-entry cur p acc k v s hp h))

key_loop-keys_text :
    (cur : Str) (p : ℕ) (acc m : Dict Str Str)
    → p ≢ backslash
    → AreFresh m acc
    → HasDistinctKeys m
    → All IsKeyText m
    → (cur' : Str) × (p' : ℕ) × (key_loop (between cur p acc) (keys_text (acc ++ m) (keys m))
        ≡ ok (between cur' p' (acc ++ m)))
key_loop-keys_text cur p acc [] hp f d h =
    (cur, p, unfold key_loop keys_text in rw (append-nil acc))
key_loop-keys_text cur p acc ((k, v) ∷ m) hp (fk, f) (dk, d) (hk, h) =
    let (cur', p', e) =
      key_loop-keys_text [] close_bracket (acc ++ (k, v) ∷ []) m (omega arith)
        (AreFresh-append m acc (k, v) f dk) d h in
    (
      cur',
      p',
      ap (key_loop (between cur p acc)) (keys_text-cons (acc ++ (k, v) ∷ m) k (keys m))
          ∙ (key_loop-fresh_entry cur p acc k v (value_at (acc ++ (k, v) ∷ m) k)
                (keys_text (acc ++ (k, v) ∷ m) (keys m)) hp hk fk
                (value_at-append-fresh k v acc m fk)
              ∙ subst
                  (λ (a : Dict Str Str).
                    key_loop (between [] close_bracket (acc ++ (k, v) ∷ [])) (keys_text a (keys m))
                    ≡ ok (between cur' p' a))
                  (append_assoc acc ((k, v) ∷ []) m) e),
    )

find_bracket-name :
    (prev : ℕ) (n s : Str)
    → prev ≢ backslash
    → All IsNameChar n
    → find_bracket prev (n ++ open_bracket ∷ s) ≡ some (n, open_bracket ∷ s)
unfolding find_bracket
find_bracket-name prev [] s hp h = ground arith
find_bracket-name prev (c ∷ n) s hp (hc, h) = ground (arith, find_bracket-name c n s hc.0.3 h)

find_bracket-none :
    (prev : ℕ) (n : Str) → prev ≢ backslash → All IsNameChar n → find_bracket prev n ≡ none
unfolding find_bracket
find_bracket-none prev [] hp h = refl
find_bracket-none prev (c ∷ n) hp (hc, h) = ground (arith, find_bracket-none c n hc.0.3 h)

parse_xpath_keys-keys_text :
    (m : Dict Str Str)
    → HasDistinctKeys m
    → All IsKeyText m
    → parse_xpath_keys (keys_text m (keys m)) ≡ ok m
unfolding parse_xpath_keys
parse_xpath_keys-keys_text m d h =
    let (cur, p, e) = key_loop-keys_text [] 0 [] m (omega arith) (fresh m) d h in rw e
  where
    fresh : (l : Dict Str Str) → AreFresh l []
    fresh [] = tt
    fresh (q ∷ l) = (tt, fresh l)

elem_of_nonempty :
    (s n rest : Str) (m : Dict Str Str)
    → n ≢ []
    → parse_xpath_keys rest ≡ ok m
    → elem_of s (some (n, rest)) ≡ ok (record { name = n; key = m })
unfolding elem_of
elem_of_nonempty s [] rest m hn e = absurd (hn refl)
elem_of_nonempty s (c ∷ n) rest m hn e = rw e

name_alone : (n : Str) → n ++ keys_text [] [] ≡ n
unfolding keys_text
name_alone n = append-nil n

keys_text_head :
    (m : Dict Str Str) (k : Str) (ks : List Str)
    → (rest : Str) × (keys_text m (k ∷ ks) ≡ open_bracket ∷ rest)
unfolding keys_text
keys_text_head m k ks = (_, refl)

elem_of_keyed :
    (n kt rest : Str) (m : Dict Str Str)
    → n ≢ []
    → All IsNameChar n
    → kt ≡ open_bracket ∷ rest
    → parse_xpath_keys kt ≡ ok m
    → elem_of (n ++ kt) (find_bracket 0 (n ++ kt)) ≡ ok (record { name = n; key = m })
elem_of_keyed n kt rest m hn h e pk =
    rw (e, find_bracket-name 0 n rest (omega arith) h)
      (elem_of_nonempty (n ++ open_bracket ∷ rest) n (open_bracket ∷ rest) m hn (rw e at pk))

elem_of-keys_text :
    (n : Str) (m : Dict Str Str)
    → n ≢ []
    → All IsNameChar n
    → HasDistinctKeys m
    → All IsKeyText m
    → elem_of (n ++ keys_text m (keys m)) (find_bracket 0 (n ++ keys_text m (keys m)))
      ≡ ok (record { name = n; key = m })
elem_of-keys_text n [] hn h d k =
    subst (λ (s : Str). elem_of s (find_bracket 0 s) ≡ ok (record { name = n; key = [] }))
      (sym (name_alone n)) (unfold elem_of in rw (find_bracket-none 0 n (omega arith) h, elem_of))
elem_of-keys_text n (q ∷ m) hn h d k =
    let (rest, e) = keys_text_head (q ∷ m) q.0 (keys m) in
    elem_of_keyed n _ rest (q ∷ m) hn h e (parse_xpath_keys-keys_text (q ∷ m) d k)

-- Parsing the text of one element gives the element.
pub to_path_elem-elem_text :
    (pe : PathElem) → IsPrintable pe → to_path_elem (elem_text false pe) ≡ ok pe
unfolding to_path_elem elem_text
to_path_elem-elem_text pe h =
    rw h.sorted (elem_of-keys_text pe.name pe.key h.named h.name h.distinct h.key)
