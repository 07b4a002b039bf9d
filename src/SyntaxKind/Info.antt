-- ===== src/SyntaxKind/Info.antt =====
-- `SyntaxKind::info` of crates/ra_syntax/src/syntax_kinds/generated.rs, and the `Debug` form that
-- crates/ra_syntax/src/syntax_kinds.rs makes of it.
use Prim.Native.String.{String}
use rust_analyzer.Base.{List, [], ◌∷◌, Option, none, some, get_elem?}
use rust_analyzer.SyntaxKind.Base.{SyntaxKind}

-- The names of the kinds, by discriminant.
abbrev names : List String
names =
    "TOMBSTONE" ∷ "EOF" ∷ "SEMI" ∷ "COMMA" ∷ "L_PAREN" ∷ "R_PAREN" ∷ "L_CURLY" ∷ "R_CURLY"
    ∷ "L_BRACK" ∷ "R_BRACK" ∷ "L_ANGLE" ∷ "R_ANGLE" ∷ "AT" ∷ "POUND" ∷ "TILDE" ∷ "QUESTION"
    ∷ "DOLLAR" ∷ "AMP" ∷ "PIPE" ∷ "PLUS" ∷ "STAR" ∷ "SLASH" ∷ "CARET" ∷ "PERCENT" ∷ "DOT" ∷ "DOTDOT"
    ∷ "DOTDOTDOT" ∷ "DOTDOTEQ" ∷ "COLON" ∷ "COLONCOLON" ∷ "EQ" ∷ "EQEQ" ∷ "FAT_ARROW" ∷ "EXCL"
    ∷ "NEQ" ∷ "MINUS" ∷ "THIN_ARROW" ∷ "LTEQ" ∷ "GTEQ" ∷ "PLUSEQ" ∷ "MINUSEQ" ∷ "PIPEEQ" ∷ "AMPEQ"
    ∷ "CARETEQ" ∷ "SLASHEQ" ∷ "STAREQ" ∷ "AMPAMP" ∷ "PIPEPIPE" ∷ "SHL" ∷ "SHR" ∷ "SHLEQ" ∷ "SHREQ"
    ∷ "USE_KW" ∷ "FN_KW" ∷ "STRUCT_KW" ∷ "ENUM_KW" ∷ "TRAIT_KW" ∷ "IMPL_KW" ∷ "DYN_KW" ∷ "TRUE_KW"
    ∷ "FALSE_KW" ∷ "AS_KW" ∷ "EXTERN_KW" ∷ "CRATE_KW" ∷ "MOD_KW" ∷ "PUB_KW" ∷ "SELF_KW" ∷ "SUPER_KW"
    ∷ "IN_KW" ∷ "WHERE_KW" ∷ "FOR_KW" ∷ "LOOP_KW" ∷ "WHILE_KW" ∷ "CONTINUE_KW" ∷ "BREAK_KW"
    ∷ "IF_KW" ∷ "ELSE_KW" ∷ "MATCH_KW" ∷ "CONST_KW" ∷ "STATIC_KW" ∷ "MUT_KW" ∷ "UNSAFE_KW"
    ∷ "TYPE_KW" ∷ "REF_KW" ∷ "LET_KW" ∷ "MOVE_KW" ∷ "RETURN_KW" ∷ "AUTO_KW" ∷ "DEFAULT_KW"
    ∷ "UNION_KW" ∷ "ERROR" ∷ "IDENT" ∷ "UNDERSCORE" ∷ "WHITESPACE" ∷ "INT_NUMBER" ∷ "FLOAT_NUMBER"
    ∷ "LIFETIME" ∷ "CHAR" ∷ "BYTE" ∷ "STRING" ∷ "RAW_STRING" ∷ "BYTE_STRING" ∷ "RAW_BYTE_STRING"
    ∷ "COMMENT" ∷ "SHEBANG" ∷ "SOURCE_FILE" ∷ "STRUCT_DEF" ∷ "ENUM_DEF" ∷ "FN_DEF" ∷ "RET_TYPE"
    ∷ "EXTERN_CRATE_ITEM" ∷ "MODULE" ∷ "USE_ITEM" ∷ "STATIC_DEF" ∷ "CONST_DEF" ∷ "TRAIT_DEF"
    ∷ "IMPL_BLOCK" ∷ "TYPE_DEF" ∷ "MACRO_CALL" ∷ "TOKEN_TREE" ∷ "PAREN_TYPE" ∷ "TUPLE_TYPE"
    ∷ "NEVER_TYPE" ∷ "PATH_TYPE" ∷ "POINTER_TYPE" ∷ "ARRAY_TYPE" ∷ "SLICE_TYPE" ∷ "REFERENCE_TYPE"
    ∷ "PLACEHOLDER_TYPE" ∷ "FN_POINTER_TYPE" ∷ "FOR_TYPE" ∷ "IMPL_TRAIT_TYPE" ∷ "DYN_TRAIT_TYPE"
    ∷ "REF_PAT" ∷ "BIND_PAT" ∷ "PLACEHOLDER_PAT" ∷ "PATH_PAT" ∷ "STRUCT_PAT" ∷ "FIELD_PAT_LIST"
    ∷ "TUPLE_STRUCT_PAT" ∷ "TUPLE_PAT" ∷ "SLICE_PAT" ∷ "RANGE_PAT" ∷ "TUPLE_EXPR" ∷ "ARRAY_EXPR"
    ∷ "PAREN_EXPR" ∷ "PATH_EXPR" ∷ "LAMBDA_EXPR" ∷ "IF_EXPR" ∷ "WHILE_EXPR" ∷ "CONDITION"
    ∷ "LOOP_EXPR" ∷ "FOR_EXPR" ∷ "CONTINUE_EXPR" ∷ "BREAK_EXPR" ∷ "LABEL" ∷ "BLOCK_EXPR"
    ∷ "RETURN_EXPR" ∷ "MATCH_EXPR" ∷ "MATCH_ARM_LIST" ∷ "MATCH_ARM" ∷ "MATCH_GUARD" ∷ "STRUCT_LIT"
    ∷ "NAMED_FIELD_LIST" ∷ "NAMED_FIELD" ∷ "CALL_EXPR" ∷ "INDEX_EXPR" ∷ "METHOD_CALL_EXPR"
    ∷ "FIELD_EXPR" ∷ "TRY_EXPR" ∷ "CAST_EXPR" ∷ "REF_EXPR" ∷ "PREFIX_EXPR" ∷ "RANGE_EXPR"
    ∷ "BIN_EXPR" ∷ "BLOCK" ∷ "EXTERN_BLOCK" ∷ "EXTERN_ITEM_LIST" ∷ "ENUM_VARIANT"
    ∷ "NAMED_FIELD_DEF_LIST" ∷ "NAMED_FIELD_DEF" ∷ "POS_FIELD_LIST" ∷ "POS_FIELD"
    ∷ "ENUM_VARIANT_LIST" ∷ "ITEM_LIST" ∷ "ATTR" ∷ "META_ITEM" ∷ "USE_TREE" ∷ "USE_TREE_LIST"
    ∷ "PATH" ∷ "PATH_SEGMENT" ∷ "LITERAL" ∷ "ALIAS" ∷ "VISIBILITY" ∷ "WHERE_CLAUSE" ∷ "WHERE_PRED"
    ∷ "ABI" ∷ "NAME" ∷ "NAME_REF" ∷ "LET_STMT" ∷ "EXPR_STMT" ∷ "TYPE_PARAM_LIST" ∷ "LIFETIME_PARAM"
    ∷ "TYPE_PARAM" ∷ "TYPE_ARG_LIST" ∷ "LIFETIME_ARG" ∷ "TYPE_ARG" ∷ "ASSOC_TYPE_ARG" ∷ "PARAM_LIST"
    ∷ "PARAM" ∷ "SELF_PARAM" ∷ "ARG_LIST" ∷ []

abbrev name_or_empty : Option String → String
name_or_empty none = ""
name_or_empty (some name) = name

-- `self.info().name`
unfoldable pub info_name : SyntaxKind → String
info_name kind = name_or_empty (get_elem? names kind)
