-- ===== src/Xpath/Scan.antt =====
-- The first loop of `toPathElems` on a printed path: it copies the text, and writes a NUL for each
-- slash outside a key.
use sdcio_schema_server.Base.{
  ℕ, ◌≡◌, ◌≢◌, refl, sym, ap, ◌∙◌, Bool, true, false, List, [], ◌∷◌, ◌++◌, append_assoc, Str, Dict,
  All, Result, ok, err, panic, ◌>>=◌, arith,
}
use sdcio_schema_server.Xpath.Parse.{
  slash, open_bracket, close_bracket, backslash, equals, scan, scan_step,
}
use sdcio_schema_server.Xpath.Strings.{keys_text, value_at}
use sdcio_schema_server.Xpath.Printable.{IsKeyChar, IsNameChar}

abbrev pub prepend : Str → Result Str → Result Str
prepend n (ok s) = ok (n ++ s)
prepend n (err e) = err e
prepend n panic = panic

prepend-nil : (m : Result Str) → prepend [] m ≡ m
prepend-nil (ok s) = refl
prepend-nil (err e) = refl
prepend-nil panic = refl

prepend-prepend : (n n' : Str) (m : Result Str) → prepend n (prepend n' m) ≡ prepend (n ++ n') m
prepend-prepend n n' (ok s) = ap ok (sym (append_assoc n n' s))
prepend-prepend n n' (err e) = refl
prepend-prepend n n' panic = refl

bind-prepend : (c : ℕ) (m : Result Str) → (m >>= λ rest. ok (c ∷ rest)) ≡ prepend (c ∷ []) m
bind-prepend c (ok s) = refl
bind-prepend c (err e) = refl
bind-prepend c panic = refl

-- The previous character counts only if it is a backslash.
scan_prev : (k : Bool) (prev : ℕ) (s : Str) → prev ≢ backslash → scan k prev s ≡ scan k 0 s
unfolding scan scan_step
scan_prev k prev [] h = refl
scan_prev k prev (r ∷ s) h = ground arith

-- From state `k` the loop copies `n` and is then in state `k'`.
abbrev pub Copies : Bool → Str → Bool → Type 0
Copies k n k' = (s : Str) → scan k 0 (n ++ s) ≡ prepend n (scan k' 0 s)

pub Copies-nil : (k : Bool) → Copies k [] k
Copies-nil k s = sym (prepend-nil (scan k 0 s))

pub Copies-append :
    (k k' k'' : Bool) (n n' : Str) → Copies k n k' → Copies k' n' k'' → Copies k (n ++ n') k''
Copies-append k k' k'' n n' h h' s =
    rw (append_assoc n n' s)
      (h (n' ++ s) ∙ ap (prepend n) (h' s) ∙ prepend-prepend n n' (scan k'' 0 s))

-- One round that goes on in state `k'` and writes `c`.
pub scan_round :
    (k k' : Bool) (r c : ℕ) (s : Str)
    → r ≢ backslash
    → scan_step k 0 r ≡ ok (k', c)
    → scan k 0 (r ∷ s) ≡ prepend (c ∷ []) (scan k' 0 s)
unfolding scan
scan_round k k' r c s h e = rw (e, scan_prev k' r s h) (bind-prepend c (scan k' 0 s))

pub Copies-name : (n : Str) → All IsNameChar n → Copies false n false
Copies-name [] h = Copies-nil false
Copies-name (c ∷ n) (hc, h) =
    Copies-append false false false (c ∷ []) n
      (λ s. scan_round false false c c s hc.0.3 (unfold scan_step in ground arith))
      (Copies-name n h)

pub Copies-key : (n : Str) → All IsKeyChar n → Copies true n true
Copies-key [] h = Copies-nil true
Copies-key (c ∷ n) (hc, h) =
    Copies-append true true true (c ∷ []) n
      (λ s. scan_round true true c c s hc.3 (unfold scan_step in ground arith)) (Copies-key n h)

Copies-open : Copies false (open_bracket ∷ []) true
Copies-open s =
    scan_round false true open_bracket open_bracket s (omega arith) (unfold scan_step in refl)

Copies-equals : Copies true (equals ∷ []) true
Copies-equals s = scan_round true true equals equals s (omega arith) (unfold scan_step in refl)

Copies-close : Copies true (close_bracket ∷ []) false
Copies-close s =
    scan_round true false close_bracket close_bracket s (omega arith) (unfold scan_step in refl)

-- One key with its value.
pub Copies-entry :
    (k v : Str)
    → All IsKeyChar k
    → All IsKeyChar v
    → Copies false (open_bracket ∷ (k ++ equals ∷ (v ++ close_bracket ∷ []))) false
Copies-entry k v hk hv =
    Copies-append false true false (open_bracket ∷ []) (k ++ equals ∷ (v ++ close_bracket ∷ []))
      Copies-open
      (Copies-append true true false k (equals ∷ (v ++ close_bracket ∷ [])) (Copies-key k hk) (
        Copies-append true true false (equals ∷ []) (v ++ close_bracket ∷ []) Copies-equals
          (Copies-append true true false v (close_bracket ∷ []) (Copies-key v hv) Copies-close)))

pub keys_text-cons :
    (m : Dict Str Str) (k : Str) (ks : List Str)
    → keys_text m (k ∷ ks)
      ≡ (open_bracket ∷ (k ++ equals ∷ (value_at m k ++ close_bracket ∷ []))) ++ keys_text m ks
unfolding keys_text
keys_text-cons m k ks = simp append_assoc

pub Copies-keys_text :
    (m : Dict Str Str) (ks : List Str)
    → All (λ k. All IsKeyChar k × All IsKeyChar (value_at m k)) ks
    → Copies false (keys_text m ks) false
Copies-keys_text m [] h = unfold keys_text in Copies-nil false
Copies-keys_text m (k ∷ ks) (h, hs) = rw keys_text-cons (
    Copies-append false false false
      (open_bracket ∷ (k ++ equals ∷ (value_at m k ++ close_bracket ∷ []))) (keys_text m ks)
      (Copies-entry k (value_at m k) h.0 h.1) (Copies-keys_text m ks hs))

pub scan-slash : (s : Str) → scan false 0 (slash ∷ s) ≡ prepend (0 ∷ []) (scan false 0 s)
scan-slash s = scan_round false false slash 0 s (omega arith) (unfold scan_step in refl)
