-- ===== src/SyntaxKind/Punctuation.antt =====
-- Discriminants of `enum SyntaxKind` in crates/ra_syntax/src/syntax_kinds/generated.rs:
-- the technical kinds and the punctuation.
use rust_analyzer.SyntaxKind.Base.{SyntaxKind}

abbrev pub tombstone : SyntaxKind
tombstone = 0

abbrev pub eof : SyntaxKind
eof = 1

abbrev pub semi : SyntaxKind
semi = 2

abbrev pub comma : SyntaxKind
comma = 3

abbrev pub l_paren : SyntaxKind
l_paren = 4

abbrev pub r_paren : SyntaxKind
r_paren = 5

abbrev pub l_curly : SyntaxKind
l_curly = 6

abbrev pub r_curly : SyntaxKind
r_curly = 7

abbrev pub l_brack : SyntaxKind
l_brack = 8

abbrev pub r_brack : SyntaxKind
r_brack = 9

abbrev pub l_angle : SyntaxKind
l_angle = 10

abbrev pub r_angle : SyntaxKind
r_angle = 11

abbrev pub at : SyntaxKind
at = 12

abbrev pub pound : SyntaxKind
pound = 13

abbrev pub tilde : SyntaxKind
tilde = 14

abbrev pub question : SyntaxKind
question = 15

abbrev pub dollar : SyntaxKind
dollar = 16

abbrev pub amp : SyntaxKind
amp = 17

abbrev pub pipe : SyntaxKind
pipe = 18

abbrev pub plus : SyntaxKind
plus = 19

abbrev pub star : SyntaxKind
star = 20

abbrev pub slash : SyntaxKind
slash = 21

abbrev pub caret : SyntaxKind
caret = 22

abbrev pub percent : SyntaxKind
percent = 23

abbrev pub dot : SyntaxKind
dot = 24

abbrev pub dotdot : SyntaxKind
dotdot = 25

abbrev pub dotdotdot : SyntaxKind
dotdotdot = 26

abbrev pub dotdoteq : SyntaxKind
dotdoteq = 27

abbrev pub colon : SyntaxKind
colon = 28

abbrev pub coloncolon : SyntaxKind
coloncolon = 29

abbrev pub eq : SyntaxKind
eq = 30

abbrev pub eqeq : SyntaxKind
eqeq = 31

abbrev pub fat_arrow : SyntaxKind
fat_arrow = 32

abbrev pub excl : SyntaxKind
excl = 33

abbrev pub neq : SyntaxKind
neq = 34

abbrev pub minus : SyntaxKind
minus = 35

abbrev pub thin_arrow : SyntaxKind
thin_arrow = 36

abbrev pub lteq : SyntaxKind
lteq = 37

abbrev pub gteq : SyntaxKind
gteq = 38

abbrev pub pluseq : SyntaxKind
pluseq = 39

abbrev pub minuseq : SyntaxKind
minuseq = 40

abbrev pub pipeeq : SyntaxKind
pipeeq = 41

abbrev pub ampeq : SyntaxKind
ampeq = 42

abbrev pub careteq : SyntaxKind
careteq = 43

abbrev pub slasheq : SyntaxKind
slasheq = 44

abbrev pub stareq : SyntaxKind
stareq = 45

abbrev pub ampamp : SyntaxKind
ampamp = 46

abbrev pub pipepipe : SyntaxKind
pipepipe = 47

abbrev pub shl : SyntaxKind
shl = 48

abbrev pub shr : SyntaxKind
shr = 49

abbrev pub shleq : SyntaxKind
shleq = 50

abbrev pub shreq : SyntaxKind
shreq = 51
