-- ===== src/Server/Sample.antt =====
-- A concrete operating system for the tests: a file is its path, a disk the contents by path, and a
-- hash is the bytes behind a number for the method.
use sdcio_schema_server.Base.{
  err, external, drop, length, ◌+◌, ◌≡◌, refl, ap, ◌∙◌, Bool, false, Option, none, some, List, [],
  ◌∷◌, ◌++◌, append-nil, Str, codes, str_eq, beq_refl, Dict, lookup, insert, lookup-insert, ok,
  if◌then◌else◌, has_prefix,
}
use sdcio_schema_server.Sdcpb.{HashMethod, unspecified, md5, sha256, sha512, other_method}
use sdcio_schema_server.Server.Os.{Os, Handle, opened_at, overwritten, IsHash, IsWorking}

unfoldable pub join_slash : List Str → Str
join_slash [] = []
join_slash (p ∷ []) = p
join_slash (p ∷ (q ∷ ps)) = p ++ b'/' ∷ join_slash (q ∷ ps)

-- A file that is not there is closed and empty.
abbrev pub at_path : Dict Str Handle → Str → Handle
at_path d p = elim (lookup p d) [
  | none ↦ record { bytes = []; offset = 0; is_open = false }
  | some h ↦ h
]

unfoldable pub without : Str → Dict Str Handle → Dict Str Handle
unfolding has_prefix
without dir [] = []
without dir ((p, h) ∷ d) =
    let rest = without dir d in if has_prefix dir p then rest else (p, h) ∷ rest

abbrev pub code_of : HashMethod → Str
code_of unspecified = codes "0"
code_of md5 = codes "1"
code_of sha256 = codes "2"
code_of sha512 = codes "3"
code_of other_method = codes "4"

abbrev pub os : Os
os = record {
  Disk = Dict Str Handle;
  File = Str;
  join = join_slash;
  dir_of = λ p. p;
  remove_all = λ p d. (ok tt, without p d);
  mkdir_all = λ p d. (ok tt, d);
  create = λ p d. (ok p, insert p (opened_at [] 0) d);
  write = λ f t d.
      let h = at_path d f in
      if h.is_open
      then (ok tt, insert f (opened_at (overwritten h.bytes h.offset t) (h.offset + length t)) d)
      else (err (external f), d);
  truncate = λ f d. (ok tt, insert f (record (at_path d f) { bytes = [] }) d);
  rewind = λ f d.
      if (at_path d f).is_open
      then (ok tt, insert f (record (at_path d f) { offset = 0 }) d)
      else (err (external f), d);
  close = λ f d. (ok tt, insert f (record (at_path d f) { is_open = false }) d);
  reads = λ f d.
      let h = at_path d f in
      if h.is_open
      then ((drop h.offset h.bytes ∷ [], none), insert f (opened_at h.bytes (length h.bytes)) d)
      else (([], some (external f)), d);
  Hasher = HashMethod × Str;
  new_md5 = (md5, []);
  new_sha256 = (sha256, []);
  new_sha512 = (sha512, []);
  feed = λ h s. ok (h.0, h.1 ++ s);
  sum = λ h. code_of h.0 ++ h.1;
}

abbrev pub os-IsHash : IsHash os
os-IsHash = record {
  digest = λ m s. code_of m ++ s;
  method = λ h. h.0;
  fed = λ h. h.1;
  feed_ok = λ h s. ((h.0, h.1 ++ s), refl, refl, refl);
  sum_lem = λ h. refl;
  md5_new = (refl, refl);
  sha256_new = (refl, refl);
  sha512_new = (refl, refl);
}

pub at_path-insert : (d : Dict Str Handle) (p : Str) (h : Handle) → at_path (insert p h d) p ≡ h
at_path-insert d p h =
    ap
      (λ (o : Option Handle). elim o as (λ x. Handle) [
        | none ↦ record { bytes = []; offset = 0; is_open = false }
        | some t ↦ t
      ])
      (lookup-insert p p h d ∙ ap (λ (b : Bool). if b then some h else lookup p d) (beq_refl p))

abbrev pub os-IsWorking : IsWorking os
os-IsWorking = record {
  state = at_path;
  mkdir_ok = λ p d. refl;
  create_ok = λ p d. (p, refl, at_path-insert d p (opened_at [] 0));
  write_ok = λ f t s n d e. rw e (refl, at_path-insert d f _);
  rewind_ok = λ f s n d e. rw e (refl, at_path-insert d f _);
  reads_ok = λ f s n d e. rw e (append-nil (drop n s), refl, at_path-insert d f _);
  close_ok = λ f s n d e. rw e (refl, at_path-insert d f _);
}
