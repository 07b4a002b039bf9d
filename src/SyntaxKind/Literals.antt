-- ===== src/SyntaxKind/Literals.antt =====
-- Discriminants of `enum SyntaxKind` in crates/ra_syntax/src/syntax_kinds/generated.rs:
-- the identifiers, literals and trivia.
use rust_analyzer.SyntaxKind.Base.{SyntaxKind}

abbrev pub error : SyntaxKind
error = 90

abbrev pub ident : SyntaxKind
ident = 91

abbrev pub underscore : SyntaxKind
underscore = 92

abbrev pub whitespace : SyntaxKind
whitespace = 93

abbrev pub int_number : SyntaxKind
int_number = 94

abbrev pub float_number : SyntaxKind
float_number = 95

abbrev pub lifetime : SyntaxKind
lifetime = 96

abbrev pub char : SyntaxKind
char = 97

abbrev pub byte : SyntaxKind
byte = 98

abbrev pub string : SyntaxKind
string = 99

abbrev pub raw_string : SyntaxKind
raw_string = 100

abbrev pub byte_string : SyntaxKind
byte_string = 101

abbrev pub raw_byte_string : SyntaxKind
raw_byte_string = 102

abbrev pub comment : SyntaxKind
comment = 103

abbrev pub shebang : SyntaxKind
shebang = 104
