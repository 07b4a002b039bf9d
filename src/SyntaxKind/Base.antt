-- ===== src/SyntaxKind/Base.antt =====
-- The type of kinds of crates/ra_syntax/src/syntax_kinds/generated.rs.
use rust_analyzer.Base.{ℕ}

-- The discriminant of the fieldless `enum SyntaxKind`, counted from 0 in order of declaration.
abbrev pub SyntaxKind : Type 0
SyntaxKind = ℕ
