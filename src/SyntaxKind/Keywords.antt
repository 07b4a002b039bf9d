-- ===== src/SyntaxKind/Keywords.antt =====
-- Discriminants of `enum SyntaxKind` in crates/ra_syntax/src/syntax_kinds/generated.rs:
-- the keywords.
use rust_analyzer.SyntaxKind.Base.{SyntaxKind}

abbrev pub use_kw : SyntaxKind
use_kw = 52

abbrev pub fn_kw : SyntaxKind
fn_kw = 53

abbrev pub struct_kw : SyntaxKind
struct_kw = 54

abbrev pub enum_kw : SyntaxKind
enum_kw = 55

abbrev pub trait_kw : SyntaxKind
trait_kw = 56

abbrev pub impl_kw : SyntaxKind
impl_kw = 57

abbrev pub dyn_kw : SyntaxKind
dyn_kw = 58

abbrev pub true_kw : SyntaxKind
true_kw = 59

abbrev pub false_kw : SyntaxKind
false_kw = 60

abbrev pub as_kw : SyntaxKind
as_kw = 61

abbrev pub extern_kw : SyntaxKind
extern_kw = 62

abbrev pub crate_kw : SyntaxKind
crate_kw = 63

abbrev pub mod_kw : SyntaxKind
mod_kw = 64

abbrev pub pub_kw : SyntaxKind
pub_kw = 65

abbrev pub self_kw : SyntaxKind
self_kw = 66

abbrev pub super_kw : SyntaxKind
super_kw = 67

abbrev pub in_kw : SyntaxKind
in_kw = 68

abbrev pub where_kw : SyntaxKind
where_kw = 69

abbrev pub for_kw : SyntaxKind
for_kw = 70

abbrev pub loop_kw : SyntaxKind
loop_kw = 71

abbrev pub while_kw : SyntaxKind
while_kw = 72

abbrev pub continue_kw : SyntaxKind
continue_kw = 73

abbrev pub break_kw : SyntaxKind
break_kw = 74

abbrev pub if_kw : SyntaxKind
if_kw = 75

abbrev pub else_kw : SyntaxKind
else_kw = 76

abbrev pub match_kw : SyntaxKind
match_kw = 77

abbrev pub const_kw : SyntaxKind
const_kw = 78

abbrev pub static_kw : SyntaxKind
static_kw = 79

abbrev pub mut_kw : SyntaxKind
mut_kw = 80

abbrev pub unsafe_kw : SyntaxKind
unsafe_kw = 81

abbrev pub type_kw : SyntaxKind
type_kw = 82

abbrev pub ref_kw : SyntaxKind
ref_kw = 83

abbrev pub let_kw : SyntaxKind
let_kw = 84

abbrev pub move_kw : SyntaxKind
move_kw = 85

abbrev pub return_kw : SyntaxKind
return_kw = 86

abbrev pub auto_kw : SyntaxKind
auto_kw = 87

abbrev pub default_kw : SyntaxKind
default_kw = 88

abbrev pub union_kw : SyntaxKind
union_kw = 89
