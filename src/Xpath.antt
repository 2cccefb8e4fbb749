-- ===== src/Xpath.antt =====
-- pkg/utils/path.go: paths to index strings and to text. Parsing is in `Xpath.Parse`.
pub mod Parse
pub mod Strings
pub mod Printable
pub mod Scan
pub mod Keys
pub mod RoundTrip
pub mod Origin
pub mod Tests
