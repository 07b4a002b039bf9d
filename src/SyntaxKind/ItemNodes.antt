-- ===== src/SyntaxKind/ItemNodes.antt =====
-- Discriminants of `enum SyntaxKind` in crates/ra_syntax/src/syntax_kinds/generated.rs:
-- the nodes of items, types, patterns and expressions.
use rust_analyzer.SyntaxKind.Base.{SyntaxKind}

abbrev pub source_file : SyntaxKind
source_file = 105

abbrev pub struct_def : SyntaxKind
struct_def = 106

abbrev pub enum_def : SyntaxKind
enum_def = 107

abbrev pub fn_def : SyntaxKind
fn_def = 108

abbrev pub ret_type : SyntaxKind
ret_type = 109

abbrev pub extern_crate_item : SyntaxKind
extern_crate_item = 110

abbrev pub module_node : SyntaxKind
module_node = 111

abbrev pub use_item : SyntaxKind
use_item = 112

abbrev pub static_def : SyntaxKind
static_def = 113

abbrev pub const_def : SyntaxKind
const_def = 114

abbrev pub trait_def : SyntaxKind
trait_def = 115

abbrev pub impl_block : SyntaxKind
impl_block = 116

abbrev pub type_def : SyntaxKind
type_def = 117

abbrev pub macro_call : SyntaxKind
macro_call = 118

abbrev pub token_tree : SyntaxKind
token_tree = 119

abbrev pub paren_type : SyntaxKind
paren_type = 120

abbrev pub tuple_type : SyntaxKind
tuple_type = 121

abbrev pub never_type : SyntaxKind
never_type = 122

abbrev pub path_type : SyntaxKind
path_type = 123

abbrev pub pointer_type : SyntaxKind
pointer_type = 124

abbrev pub array_type : SyntaxKind
array_type = 125

abbrev pub slice_type : SyntaxKind
slice_type = 126

abbrev pub reference_type : SyntaxKind
reference_type = 127

abbrev pub placeholder_type : SyntaxKind
placeholder_type = 128

abbrev pub fn_pointer_type : SyntaxKind
fn_pointer_type = 129

abbrev pub for_type : SyntaxKind
for_type = 130

abbrev pub impl_trait_type : SyntaxKind
impl_trait_type = 131

abbrev pub dyn_trait_type : SyntaxKind
dyn_trait_type = 132

abbrev pub ref_pat : SyntaxKind
ref_pat = 133

abbrev pub bind_pat : SyntaxKind
bind_pat = 134

abbrev pub placeholder_pat : SyntaxKind
placeholder_pat = 135

abbrev pub path_pat : SyntaxKind
path_pat = 136

abbrev pub struct_pat : SyntaxKind
struct_pat = 137

abbrev pub field_pat_list : SyntaxKind
field_pat_list = 138

abbrev pub tuple_struct_pat : SyntaxKind
tuple_struct_pat = 139

abbrev pub tuple_pat : SyntaxKind
tuple_pat = 140

abbrev pub slice_pat : SyntaxKind
slice_pat = 141

abbrev pub range_pat : SyntaxKind
range_pat = 142

abbrev pub tuple_expr : SyntaxKind
tuple_expr = 143

abbrev pub array_expr : SyntaxKind
array_expr = 144

abbrev pub paren_expr : SyntaxKind
paren_expr = 145

abbrev pub path_expr : SyntaxKind
path_expr = 146

abbrev pub lambda_expr : SyntaxKind
lambda_expr = 147

abbrev pub if_expr : SyntaxKind
if_expr = 148

abbrev pub while_expr : SyntaxKind
while_expr = 149

abbrev pub condition : SyntaxKind
condition = 150

abbrev pub loop_expr : SyntaxKind
loop_expr = 151

abbrev pub for_expr : SyntaxKind
for_expr = 152

abbrev pub continue_expr : SyntaxKind
continue_expr = 153

abbrev pub break_expr : SyntaxKind
break_expr = 154

abbrev pub label : SyntaxKind
label = 155

abbrev pub block_expr : SyntaxKind
block_expr = 156

abbrev pub return_expr : SyntaxKind
return_expr = 157

abbrev pub match_expr : SyntaxKind
match_expr = 158

abbrev pub match_arm_list : SyntaxKind
match_arm_list = 159

abbrev pub match_arm : SyntaxKind
match_arm = 160

abbrev pub match_guard : SyntaxKind
match_guard = 161

abbrev pub struct_lit : SyntaxKind
struct_lit = 162

abbrev pub named_field_list : SyntaxKind
named_field_list = 163

abbrev pub named_field : SyntaxKind
named_field = 164

abbrev pub call_expr : SyntaxKind
call_expr = 165

abbrev pub index_expr : SyntaxKind
index_expr = 166

abbrev pub method_call_expr : SyntaxKind
method_call_expr = 167

abbrev pub field_expr : SyntaxKind
field_expr = 168

abbrev pub try_expr : SyntaxKind
try_expr = 169

abbrev pub cast_expr : SyntaxKind
cast_expr = 170

abbrev pub ref_expr : SyntaxKind
ref_expr = 171

abbrev pub prefix_expr : SyntaxKind
prefix_expr = 172

abbrev pub range_expr : SyntaxKind
range_expr = 173

abbrev pub bin_expr : SyntaxKind
bin_expr = 174
