-- ===== src/Parser/Api/Lookahead.antt =====
-- What `Parser::at_ts` and `Parser::err_recover` (crates/ra_syntax/src/parser_api.rs) do where the
-- grammar stands.
use Prim.Native.String.{String}
use rust_analyzer.Base.{
  ℕ, zero, suc, ◌+◌, ◌≤◌, ◌≡◌, ◌≢◌, refl, ap, List, [], ◌∷◌, ◌++◌, none, some, arith, get_elem?,
  set, length, true, false, ◌==◌, leb, append_assoc, get_elem?-append_length,
}
use rust_analyzer.SyntaxKind
use rust_analyzer.SyntaxKind.{SyntaxKind, is_trivia}
use rust_analyzer.TokenSet
use rust_analyzer.TokenSet.{TokenSet}
use rust_analyzer.TokenSet.Members.{mem, All, IsTokenKind, contains-token_set}
use rust_analyzer.Lexer.Tokenize.{Token}
use rust_analyzer.Lexer.Tokenize.Kinds.{AllLexed}
use rust_analyzer.Parser.Event
use rust_analyzer.Parser.Event.{Event, start, finish, token, error}
use rust_analyzer.Parser.Input
use rust_analyzer.Parser.Input.{ParserInput, kind_or_eof}
use rust_analyzer.Parser.Impl
use rust_analyzer.Parser.Impl.{ParserImpl}
use rust_analyzer.Parser.Api.{at_ts, err_recover}

-- The grammar sees kinds of tokens, or the end.
IsTokenKind-kind_or_eof :
    (ts : List Token) (pos : ℕ) → AllLexed ts → IsTokenKind (kind_or_eof (get_elem? ts pos))
IsTokenKind-kind_or_eof [] pos h = omega arith
IsTokenKind-kind_or_eof (t ∷ ts) zero h = ground (arith, h.0)
IsTokenKind-kind_or_eof (t ∷ ts) (suc pos) h = IsTokenKind-kind_or_eof ts pos h.1

-- On lexed tokens, and while the parser is not stuck, `at_ts` of a set built by `token_set!` from
-- kinds below 128 says whether the kind of the current token is listed.
pub at_ts-mem :
    (inp : ParserInput) (ks : List SyntaxKind) (p : ParserImpl)
    → AllLexed inp.tokens
    → All ks
    → p.steps ≤ Impl.max_steps
    → at_ts inp (TokenSet.token_set ks) p
      ≡ some (mem (Input.kind inp p.pos) ks, record p { steps = p.steps + 1 })
unfolding at_ts Impl.nth Impl.pure Impl.◌>>=◌ Input.kind
at_ts-mem inp ks p lexed all steps =
    let within : leb p.steps Impl.max_steps ≡ true = ground arith in
    let here : p.pos + 0 ≡ p.pos = omega arith in
    rw
      (
        within,
        here,
        contains-token_set ks (kind_or_eof (get_elem? inp.tokens p.pos)) all
            (IsTokenKind-kind_or_eof inp.tokens p.pos lexed),
      )
      refl

set-append_length :
    (es fs : List Event) (e f : Event) → set (es ++ e ∷ fs) (length es) f ≡ es ++ f ∷ fs
set-append_length [] fs e f = refl
set-append_length (x ∷ es) fs e f = ap (λ l. x ∷ l) (set-append_length es fs e f)

-- Where the current token is neither a brace, nor in the recovery set, nor the end, and the parser is
-- not stuck, `err_recover` puts the token into an error node with the message, and goes on behind it.
pub err_recover-progress :
    (inp : ParserInput) (message : String) (recovery : TokenSet) (p : ParserImpl)
    → p.steps + 4 ≤ Impl.max_steps
    → Input.kind inp p.pos ≢ SyntaxKind.l_curly
    → Input.kind inp p.pos ≢ SyntaxKind.r_curly
    → Input.kind inp p.pos ≢ SyntaxKind.eof
    → TokenSet.contains recovery (Input.kind inp p.pos) ≡ false
    → err_recover inp message recovery p
      ≡ some (
        tt,
        record {
          pos = p.pos + 1;
          events =
              p.events
              ++ start SyntaxKind.error none
                ∷ error message
                ∷ token (Input.kind inp p.pos) 1
                ∷ finish
                ∷ [];
          steps = p.steps + 4;
        },
      )
unfolding err_recover Impl.nth Impl.pure Impl.◌>>=◌ Impl.start Impl.error Impl.bump Impl.complete
err_recover-progress inp message recovery p steps l r e out =
    let k = Input.kind inp p.pos in
    let here : p.pos + 0 ≡ p.pos = omega arith in
    let w0 : leb p.steps Impl.max_steps ≡ true = ground arith in
    let w1 : leb (p.steps + 1) Impl.max_steps ≡ true = ground arith in
    let w2 : leb (p.steps + 1 + 1) Impl.max_steps ≡ true = ground arith in
    let w3 : leb (p.steps + 1 + 1 + 1) Impl.max_steps ≡ true = ground arith in
    let n0 : (Input.kind inp p.pos == SyntaxKind.l_curly) ≡ false = ground arith in
    let n1 : (Input.kind inp p.pos == SyntaxKind.r_curly) ≡ false = ground arith in
    let n2 : (Input.kind inp p.pos == SyntaxKind.eof) ≡ false = ground arith in
    let pushed : ((p.events ++ Event.tombstone ∷ []) ++ error message ∷ []) ++ token k 1 ∷ []
        ≡ p.events ++ Event.tombstone ∷ error message ∷ token k 1 ∷ [] =
      rw (append_assoc, append_assoc) refl in
    let four : p.steps + 1 + 1 + 1 + 1 ≡ p.steps + 4 = omega arith in
    rw (w0, here, n0, w1, here, n1, w2, here, out, w3, here, n2)
      (rw
        (
          pushed,
          get_elem?-append_length p.events (error message ∷ token k 1 ∷ []) Event.tombstone,
          set-append_length p.events (error message ∷ token k 1 ∷ []) Event.tombstone
              (start SyntaxKind.error none),
          append_assoc p.events (start SyntaxKind.error none ∷ error message ∷ token k 1 ∷ [])
              (finish ∷ []),
          four,
        )
        refl)
