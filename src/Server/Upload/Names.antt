-- ===== src/Server/Upload/Names.antt =====
-- The directories of the uploads.
use sdcio_schema_server.Base.{
  ◌≡◌, ◌≢◌, sym, ap, ◌∙◌, ℕ, ◌∷◌, ◌++◌, append_assoc, length, length-append, Str, Lacks,
  append_sep-injective, arith,
}
use sdcio_schema_server.Config.{SchemaConfig}
use sdcio_schema_server.Store.{SchemaKey, key_in}
use sdcio_schema_server.Server.Upload.{dirname_of}

abbrev underscore : ℕ
underscore = b'_'

-- Two schemas whose names and vendors hold no `_` are uploaded to the same directory only if they are
-- the same.
pub dirname_of-injective :
    (a b : SchemaConfig)
    → Lacks underscore a.name
    → Lacks underscore a.vendor
    → Lacks underscore b.name
    → Lacks underscore b.vendor
    → dirname_of a ≡ dirname_of b
    → key_in a ≡ key_in b
unfolding dirname_of
dirname_of-injective a b na va nb vb e =
    let (names, rest) = append_sep-injective underscore a.name b.name _ _ na nb e in
    let (vendors, versions) = append_sep-injective underscore a.vendor b.vendor _ _ va vb rest in cc

-- A schema with a `_` in its name shares its directory with another one: the part of the name behind
-- the `_` may as well be the start of the vendor.
pub dirname_of_shared :
    (a b : SchemaConfig) (s t : Str)
    → a.name ≡ s ++ underscore ∷ t
    → b.name ≡ s
    → b.vendor ≡ t ++ underscore ∷ a.vendor
    → a.version ≡ b.version
    → (key_in a ≢ key_in b) × (dirname_of a ≡ dirname_of b)
unfolding dirname_of
dirname_of_shared a b s t an bn bv same = (
  λ k. longer s t (sym an ∙ (ap (λ (j : SchemaKey). j.name) k ∙ bn)),
  rw (an, bn, bv, same)
      (append_assoc s (underscore ∷ t) (underscore ∷ (a.vendor ++ underscore ∷ b.version))
        ∙ ap (λ (r : Str). s ++ underscore ∷ r)
            (sym (append_assoc t (underscore ∷ a.vendor) (underscore ∷ b.version)))),
)
  where
    longer : (s t : Str) → s ++ underscore ∷ t ≢ s
    longer s t e = omega (arith, length-append s (underscore ∷ t), ap (λ (r : Str). length r) e)
