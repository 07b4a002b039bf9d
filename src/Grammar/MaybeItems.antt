-- ===== src/Grammar/MaybeItems.antt =====
-- The items of crates/ra_syntax/src/grammar/items.rs, with their modifiers.
use rust_analyzer.SyntaxKind
use rust_analyzer.Base.{
  Bool, List, Option, [], false, if◌then◌else◌, none, some, ℕ, ◌&&◌, ◌==◌, ◌||◌, ◌∷◌,
}
use rust_analyzer.Grammar.Attributes.{outer_attributes}
use rust_analyzer.Grammar.Entries.{Grammar}
use rust_analyzer.Grammar.Items.{
  ItemFlavor, MaybeItem, const_def, extern_crate_item, fn_def, mod_item, static_def, type_def,
}
use rust_analyzer.Grammar.Monad.{Gram, and, not, or, pure, when, ◌>>=◌, ◌>>◌}
use rust_analyzer.Grammar.Names.{abi}
use rust_analyzer.Grammar.Nominal.{enum_def, struct_def}
use rust_analyzer.Grammar.Ops.{
  at, at_contextual_kw, bump_remap, current, eat, err_and_bump, nth, nth_is,
}
use rust_analyzer.Grammar.Paths.{opt_visibility}
use rust_analyzer.Grammar.Traits.{impl_block, trait_def}
use rust_analyzer.Grammar.UseItems.{use_item}
use rust_analyzer.SyntaxKind.{SyntaxKind}

-- Sequences that end with a kind.
unfoldable pub gives : Gram (Unit {0}) → SyntaxKind → Gram (Option SyntaxKind)
gives m kind = do m; pure (some kind)

-- struct_def, and a semicolon that should not be there.
unfoldable pub struct_item : Grammar → Gram (Unit {0})
struct_item g = do
  struct_def g SyntaxKind.struct_kw
  semi ← at SyntaxKind.semi
  when semi (err_and_bump "expected item, found `;`\nconsider removing this semicolon")

-- The last arms of items_without_modifiers.
unfoldable pub const_or_extern : Grammar → SyntaxKind → SyntaxKind → Gram (Option SyntaxKind)
const_or_extern g kind la =
    if kind == SyntaxKind.enum_kw
    then gives (enum_def g) SyntaxKind.enum_def
    else if kind == SyntaxKind.use_kw
    then gives (use_item g) SyntaxKind.use_item
    else if kind == SyntaxKind.const_kw && (la == SyntaxKind.ident || la == SyntaxKind.mut_kw)
    then gives (const_def g) SyntaxKind.const_def
    else if kind == SyntaxKind.static_kw
    then gives (static_def g) SyntaxKind.static_def
    else (do
      extern_block ←
          (if kind == SyntaxKind.extern_kw
            then or (pure (la == SyntaxKind.l_curly)) (
                and (pure (la == SyntaxKind.string || la == SyntaxKind.raw_string))
                  (nth_is 2 SyntaxKind.l_curly))
            else pure false)
      if extern_block
          then gives (do abi; g.extern_item_list) SyntaxKind.extern_block
          else pure none)

-- items_without_modifiers
unfoldable pub items_without_modifiers : Grammar → Gram (Option SyntaxKind)
items_without_modifiers g = do
  la ← nth 1
  kind ← current
  if kind == SyntaxKind.extern_kw && la == SyntaxKind.crate_kw
      then gives extern_crate_item SyntaxKind.extern_crate_item
      else if kind == SyntaxKind.type_kw
      then gives (type_def g) SyntaxKind.type_def
      else if kind == SyntaxKind.mod_kw
      then gives (mod_item g) SyntaxKind.module_node
      else if kind == SyntaxKind.struct_kw
      then gives (struct_item g) SyntaxKind.struct_def
      else (do
        union ←
            (if kind == SyntaxKind.ident
              then and (at_contextual_kw (b'u' ∷ b'n' ∷ b'i' ∷ b'o' ∷ b'n' ∷ []))
                  (nth_is 1 SyntaxKind.ident)
              else pure false)
        if union
            then gives (struct_def g SyntaxKind.union_kw) SyntaxKind.struct_def
            else const_or_extern g kind la)

-- A contextual keyword before another keyword.
unfoldable pub contextual_before : List ℕ → SyntaxKind → Gram Bool
contextual_before text next =
    and (at SyntaxKind.ident) (and (at_contextual_kw text) (nth_is 1 next))

-- The modifiers of maybe_item; whether there are any.
unfoldable pub modifiers : Gram Bool
modifiers = do
  const_kw ← eat SyntaxKind.const_kw
  unsafe_kw ← and (at SyntaxKind.unsafe_kw) (not (nth_is 1 SyntaxKind.l_curly))
  when unsafe_kw (do eat SyntaxKind.unsafe_kw; pure tt)
  extern_kw ← at SyntaxKind.extern_kw
  when extern_kw abi
  auto_kw ← contextual_before (b'a' ∷ b'u' ∷ b't' ∷ b'o' ∷ []) SyntaxKind.trait_kw
  when auto_kw (bump_remap SyntaxKind.auto_kw)
  default_kw ←
      contextual_before (b'd' ∷ b'e' ∷ b'f' ∷ b'a' ∷ b'u' ∷ b'l' ∷ b't' ∷ []) SyntaxKind.impl_kw
  when default_kw (bump_remap SyntaxKind.default_kw)
  pure (const_kw || unsafe_kw || extern_kw || auto_kw || default_kw)

-- What maybe_item does after the items without modifiers.
unfoldable pub modified_item : Grammar → ItemFlavor → Option SyntaxKind → Gram MaybeItem
modified_item g flavor (some kind) = pure (MaybeItem.item kind)
modified_item g flavor none = do
  has_mods ← modifiers
  kind ← current
  if kind == SyntaxKind.fn_kw
      then (do fn_def g flavor; pure (MaybeItem.item SyntaxKind.fn_def))
      else if kind == SyntaxKind.trait_kw
      then (do trait_def g; pure (MaybeItem.item SyntaxKind.trait_def))
      else if kind == SyntaxKind.impl_kw
      then (do impl_block g; pure (MaybeItem.item SyntaxKind.impl_block))
      else pure (if has_mods then MaybeItem.modifiers else MaybeItem.no_item)

-- maybe_item
unfoldable pub maybe_item : Grammar → ItemFlavor → Gram MaybeItem
maybe_item g flavor = do
  outer_attributes g
  opt_visibility g
  kind ← items_without_modifiers g
  modified_item g flavor kind
