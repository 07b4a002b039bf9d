-- ===== src/Grammar/Sets.antt =====
-- The token sets of crates/ra_syntax/src/grammar/, by which it looks ahead and recovers.
use rust_analyzer.SyntaxKind
use rust_analyzer.TokenSet
use rust_analyzer.Base.{[], ◌∷◌}
use rust_analyzer.SyntaxKind.{SyntaxKind}
use rust_analyzer.TokenSet.{TokenSet}

-- paths::PATH_FIRST
abbrev pub path_first : TokenSet
path_first = TokenSet.token_set (
    SyntaxKind.ident ∷ SyntaxKind.self_kw ∷ SyntaxKind.super_kw ∷ SyntaxKind.crate_kw
    ∷ SyntaxKind.coloncolon ∷ SyntaxKind.l_angle ∷ [])

-- types::TYPE_FIRST
abbrev pub type_first : TokenSet
type_first = TokenSet.token_set_union (
    TokenSet.token_set (
      SyntaxKind.l_paren ∷ SyntaxKind.excl ∷ SyntaxKind.star ∷ SyntaxKind.l_brack ∷ SyntaxKind.amp
      ∷ SyntaxKind.underscore ∷ SyntaxKind.fn_kw ∷ SyntaxKind.unsafe_kw ∷ SyntaxKind.extern_kw
      ∷ SyntaxKind.for_kw ∷ SyntaxKind.impl_kw ∷ SyntaxKind.dyn_kw ∷ SyntaxKind.l_angle ∷ [])
    ∷ path_first
    ∷ [])

-- types::TYPE_RECOVERY_SET
abbrev pub type_recovery_set : TokenSet
type_recovery_set = TokenSet.token_set (SyntaxKind.r_paren ∷ SyntaxKind.comma ∷ [])

-- atom::LITERAL_FIRST
abbrev pub literal_first : TokenSet
literal_first = TokenSet.token_set (
    SyntaxKind.true_kw ∷ SyntaxKind.false_kw ∷ SyntaxKind.int_number ∷ SyntaxKind.float_number
    ∷ SyntaxKind.byte ∷ SyntaxKind.char ∷ SyntaxKind.string ∷ SyntaxKind.raw_string
    ∷ SyntaxKind.byte_string ∷ SyntaxKind.raw_byte_string ∷ [])

-- patterns::PATTERN_FIRST
abbrev pub pattern_first : TokenSet
pattern_first = TokenSet.token_set_union (
    TokenSet.token_set (
      SyntaxKind.ref_kw ∷ SyntaxKind.mut_kw ∷ SyntaxKind.l_paren ∷ SyntaxKind.l_brack
      ∷ SyntaxKind.amp ∷ SyntaxKind.underscore ∷ [])
    ∷ literal_first
    ∷ path_first
    ∷ [])

-- patterns::PAT_RECOVERY_SET
abbrev pub pat_recovery_set : TokenSet
pat_recovery_set = TokenSet.token_set (
    SyntaxKind.let_kw ∷ SyntaxKind.if_kw ∷ SyntaxKind.while_kw ∷ SyntaxKind.loop_kw
    ∷ SyntaxKind.match_kw ∷ SyntaxKind.r_paren ∷ SyntaxKind.comma ∷ [])

-- params::VALUE_PARAMETER_FIRST
abbrev pub value_parameter_first : TokenSet
value_parameter_first = TokenSet.token_set_union (pattern_first ∷ type_first ∷ [])

-- atom::ATOM_EXPR_FIRST
abbrev pub atom_expr_first : TokenSet
atom_expr_first = TokenSet.token_set_union (
    literal_first
    ∷ TokenSet.token_set (
        SyntaxKind.l_paren ∷ SyntaxKind.l_curly ∷ SyntaxKind.l_brack ∷ SyntaxKind.pipe
        ∷ SyntaxKind.move_kw ∷ SyntaxKind.if_kw ∷ SyntaxKind.while_kw ∷ SyntaxKind.match_kw
        ∷ SyntaxKind.unsafe_kw ∷ SyntaxKind.return_kw ∷ SyntaxKind.ident ∷ SyntaxKind.self_kw
        ∷ SyntaxKind.super_kw ∷ SyntaxKind.crate_kw ∷ SyntaxKind.coloncolon ∷ SyntaxKind.break_kw
        ∷ SyntaxKind.continue_kw ∷ SyntaxKind.lifetime ∷ [])
    ∷ [])

-- expressions::LHS_FIRST
abbrev pub lhs_first : TokenSet
lhs_first = TokenSet.token_set_union (
    TokenSet.token_set (
      SyntaxKind.amp ∷ SyntaxKind.star ∷ SyntaxKind.excl ∷ SyntaxKind.dotdot ∷ SyntaxKind.dotdoteq
      ∷ SyntaxKind.minus ∷ [])
    ∷ atom_expr_first
    ∷ [])

-- expressions::EXPR_FIRST
abbrev pub expr_first : TokenSet
expr_first = lhs_first

-- atom::EXPR_RECOVERY_SET
abbrev pub expr_recovery_set : TokenSet
expr_recovery_set = TokenSet.token_set (SyntaxKind.let_kw ∷ [])

-- items::ITEM_RECOVERY_SET
abbrev pub item_recovery_set : TokenSet
item_recovery_set = TokenSet.token_set (
    SyntaxKind.fn_kw ∷ SyntaxKind.struct_kw ∷ SyntaxKind.enum_kw ∷ SyntaxKind.impl_kw
    ∷ SyntaxKind.trait_kw ∷ SyntaxKind.const_kw ∷ SyntaxKind.static_kw ∷ SyntaxKind.let_kw
    ∷ SyntaxKind.mod_kw ∷ SyntaxKind.pub_kw ∷ SyntaxKind.crate_kw ∷ [])
