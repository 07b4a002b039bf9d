-- ===== src/SyntaxKind/PartNodes.antt =====
-- Discriminants of `enum SyntaxKind` in crates/ra_syntax/src/syntax_kinds/generated.rs:
-- the nodes of blocks, fields, paths, parameters and arguments.
use rust_analyzer.SyntaxKind.Base.{SyntaxKind}

abbrev pub block : SyntaxKind
block = 175

abbrev pub extern_block : SyntaxKind
extern_block = 176

abbrev pub extern_item_list : SyntaxKind
extern_item_list = 177

abbrev pub enum_variant : SyntaxKind
enum_variant = 178

abbrev pub named_field_def_list : SyntaxKind
named_field_def_list = 179

abbrev pub named_field_def : SyntaxKind
named_field_def = 180

abbrev pub pos_field_list : SyntaxKind
pos_field_list = 181

abbrev pub pos_field : SyntaxKind
pos_field = 182

abbrev pub enum_variant_list : SyntaxKind
enum_variant_list = 183

abbrev pub item_list : SyntaxKind
item_list = 184

abbrev pub attr : SyntaxKind
attr = 185

abbrev pub meta_item : SyntaxKind
meta_item = 186

abbrev pub use_tree : SyntaxKind
use_tree = 187

abbrev pub use_tree_list : SyntaxKind
use_tree_list = 188

abbrev pub path : SyntaxKind
path = 189

abbrev pub path_segment : SyntaxKind
path_segment = 190

abbrev pub literal : SyntaxKind
literal = 191

abbrev pub alias : SyntaxKind
alias = 192

abbrev pub visibility : SyntaxKind
visibility = 193

abbrev pub where_clause : SyntaxKind
where_clause = 194

abbrev pub where_pred : SyntaxKind
where_pred = 195

abbrev pub abi : SyntaxKind
abi = 196

abbrev pub name : SyntaxKind
name = 197

abbrev pub name_ref : SyntaxKind
name_ref = 198

abbrev pub let_stmt : SyntaxKind
let_stmt = 199

abbrev pub expr_stmt : SyntaxKind
expr_stmt = 200

abbrev pub type_param_list : SyntaxKind
type_param_list = 201

abbrev pub lifetime_param : SyntaxKind
lifetime_param = 202

abbrev pub type_param : SyntaxKind
type_param = 203

abbrev pub type_arg_list : SyntaxKind
type_arg_list = 204

abbrev pub lifetime_arg : SyntaxKind
lifetime_arg = 205

abbrev pub type_arg : SyntaxKind
type_arg = 206

abbrev pub assoc_type_arg : SyntaxKind
assoc_type_arg = 207

abbrev pub param_list : SyntaxKind
param_list = 208

abbrev pub param : SyntaxKind
param = 209

abbrev pub self_param : SyntaxKind
self_param = 210

abbrev pub arg_list : SyntaxKind
arg_list = 211
