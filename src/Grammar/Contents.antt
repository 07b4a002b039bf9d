-- ===== src/Grammar/Contents.antt =====
-- Lists of items: crates/ra_syntax/src/grammar/items.rs and items/traits.rs; root of grammar.rs.
use rust_analyzer.Base
use rust_analyzer.SyntaxKind
use rust_analyzer.Base.{Bool, false, if◌then◌else◌, true}
use rust_analyzer.Grammar.Attributes.{inner_attributes}
use rust_analyzer.Grammar.Entries.{Grammar, is_block}
use rust_analyzer.Grammar.Items.{ItemFlavor, MaybeItem, macro_call}
use rust_analyzer.Grammar.MaybeItems.{maybe_item}
use rust_analyzer.Grammar.Monad.{Gram, and, not, pure, when, while, ◌>>=◌, ◌>>◌}
use rust_analyzer.Grammar.Names.{error_block}
use rust_analyzer.Grammar.Ops.{
  abandon, assert_at, at, at_neither, before, bump, complete, eat, err_and_bump, error, expect,
  start,
}
use rust_analyzer.Grammar.Paths.{is_path_start, path}
use rust_analyzer.Parser.Api.{Marker}
use rust_analyzer.SyntaxKind.{SyntaxKind}

-- What item_or_macro does where there is neither.
unfoldable pub no_item_here : Grammar → Bool → Gram (Unit {0})
no_item_here g stop_on_r_curly = do
  l_curly ← at SyntaxKind.l_curly
  if l_curly then error_block g "expected an item" else (do
    unmatched ← and (at SyntaxKind.r_curly) (pure (Base.not stop_on_r_curly))
    if unmatched
        then (do e ← start; error "unmatched `}`"; bump; complete e SyntaxKind.error; pure tt)
        else (do
          inside ← at_neither SyntaxKind.eof SyntaxKind.r_curly
          if inside then err_and_bump "expected an item" else error "expected an item"))

unfoldable pub item_end : Grammar → Bool → Marker → MaybeItem → Gram (Unit {0})
item_end g stop_on_r_curly m (MaybeItem.item kind) = do complete m kind; pure tt
item_end g stop_on_r_curly m MaybeItem.no_item = do
  path ← is_path_start
  if path
      then (do
        call ← macro_call g
        when (Base.not (is_block call)) (do expect SyntaxKind.semi; pure tt)
        complete m SyntaxKind.macro_call
        pure tt)
      else (do abandon m; no_item_here g stop_on_r_curly)
item_end g stop_on_r_curly m MaybeItem.modifiers = do
  error "expected fn, trait or impl"
  complete m SyntaxKind.error
  pure tt

-- item_or_macro
unfoldable pub item_or_macro : Grammar → Bool → ItemFlavor → Gram (Unit {0})
item_or_macro g stop_on_r_curly flavor = do
  m ← start
  item ← maybe_item g flavor
  item_end g stop_on_r_curly m item

-- mod_contents
unfoldable pub mod_contents : Grammar → Bool → Gram (Unit {0})
mod_contents g stop_on_r_curly = do
  inner_attributes g
  while g.fuel
      (and (not (at SyntaxKind.eof)) (not (and (pure stop_on_r_curly) (at SyntaxKind.r_curly))))
      (do item_or_macro g stop_on_r_curly ItemFlavor.in_mod; pure true)

-- Braces around the contents of a module.
unfoldable pub contents_list : Grammar → SyntaxKind → Gram (Unit {0})
contents_list g kind = do
  assert_at SyntaxKind.l_curly
  m ← start
  bump
  mod_contents g true
  expect SyntaxKind.r_curly
  complete m kind
  pure tt

-- extern_item_list
unfoldable pub extern_item_list : Grammar → Gram (Unit {0})
extern_item_list g = contents_list g SyntaxKind.extern_item_list

-- mod_item_list
unfoldable pub mod_item_list : Grammar → Gram (Unit {0})
mod_item_list g = contents_list g SyntaxKind.item_list

-- The items of a trait or an impl.
unfoldable pub members_list : Grammar → ItemFlavor → Gram (Unit {0})
members_list g flavor = do
  assert_at SyntaxKind.l_curly
  m ← start
  bump
  while g.fuel (before SyntaxKind.r_curly) (do
    curly ← at SyntaxKind.l_curly
    if curly
        then (do error_block g "expected an item"; pure true)
        else (do item_or_macro g true flavor; pure true))
  expect SyntaxKind.r_curly
  complete m SyntaxKind.item_list
  pure tt

-- trait_item_list
unfoldable pub trait_item_list : Grammar → Gram (Unit {0})
trait_item_list g = members_list g ItemFlavor.in_trait

-- impl_item_list
unfoldable pub impl_item_list : Grammar → Gram (Unit {0})
impl_item_list g = members_list g ItemFlavor.in_mod

-- root
unfoldable pub root : Grammar → Gram (Unit {0})
root g = do
  m ← start
  eat SyntaxKind.shebang
  mod_contents g false
  complete m SyntaxKind.source_file
  pure tt
