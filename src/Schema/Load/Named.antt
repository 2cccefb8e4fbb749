-- ===== src/Schema/Load/Named.antt =====
-- A loaded schema keeps its configuration, but for the files.
use sdcio_schema_server.Base.{◌≡◌, sym, List, Str, Result, ok, >>=-eq-ok}
use sdcio_schema_server.Config.{SchemaConfig}
use sdcio_schema_server.Yang.{Entry}
use sdcio_schema_server.Schema.Element.{Annotations}
use sdcio_schema_server.Schema.Load.{Host, Schema, find_yang_files, read_yang_files, new_schema}

module _ (h : Host) (annotate : Entry → Result Annotations) where
  pub new_schema-config :
      (c : SchemaConfig) {s : Schema}
      → new_schema h annotate c ≡ ok s
      → (files : List Str) × (find_yang_files h c.files ≡ ok files)
        × (s.config ≡ record c { files = files })
  unfolding new_schema
  new_schema-config c e =
      let (files, e1, r1) = >>=-eq-ok (find_yang_files h c.files) _ e in
      let (m, e2, r2) = >>=-eq-ok (read_yang_files h (record c { files = files })) _ r1 in
      let (notes, e3, r3) = >>=-eq-ok (annotate _) _ r2 in (files, e1, sym (config_eq r3))
    where
      config_eq : {a b : Schema} → ◌≡◌ {A = Result Schema} (ok a) (ok b) → a.config ≡ b.config
      config_eq e = cc
