-- ===== src/Lexer/Strings/Within.antt =====
-- The scanners of crates/ra_syntax/src/lexer/strings.rs stay within their text.
use rust_analyzer.Base.{ℕ, List}
use rust_analyzer.Base.Loop.{loop}
use rust_analyzer.Lexer.Ptr.Within.{Within-here}
use rust_analyzer.Lexer.Ptr.{Ptr, left}
use rust_analyzer.Lexer.Ptr.Within.{LeftBelow, LeftBelow-Within}
use rust_analyzer.Lexer.Strings.{
  raw_byte_string_round, count_hashes_round, match_hashes_round, raw_string_round, match_hashes,
  count_hashes, scan_raw_string,
}
use rust_analyzer.Lexer.Ptr.Within.{Within, Within-loop, scan_rules}
use rust_analyzer.Lexer.Strings.{scan_char, scan_string, scan_raw_byte_string}

module _ {text : List ℕ} {n : ℕ} where
  pub Within-scan_char : (ptr : Ptr) → Within text n ptr → Within text n (scan_char ptr)
  unfolding scan_char
  Within-scan_char =
      Within-loop {pos = λ p. p} {end = λ p. p} _ _ (λ s text n w. search scan_rules depth 9)

  pub Within-scan_string : (ptr : Ptr) → Within text n ptr → Within text n (scan_string ptr)
  unfolding scan_string
  Within-scan_string =
      Within-loop {pos = λ p. p} {end = λ p. p} _ _ (λ s text n w. search scan_rules depth 9)

  raw_byte_string_loop :
      (ptr : Ptr) → Within text n ptr → Within text n (loop left raw_byte_string_round (λ q. q) ptr)
  unfolding raw_byte_string_round
  raw_byte_string_loop =
      Within-loop {pos = λ p. p} {end = λ p. p} _ _ (λ s text n w. search scan_rules depth 9)

  pub Within-scan_raw_byte_string :
      (ptr : Ptr) → Within text n ptr → Within text n (scan_raw_byte_string ptr)
  unfolding scan_raw_byte_string
  Within-scan_raw_byte_string ptr w = search (scan_rules, raw_byte_string_loop)

  Within-count_hashes : (s : Ptr × ℕ) → Within text n s.0 → Within text n (count_hashes s).0
  unfolding count_hashes
  Within-count_hashes =
      Within-loop {S = Ptr × ℕ} {pos = λ s. s.0} {end = λ s. s.0} count_hashes_round (λ s. s)
        (λ s text n w. search scan_rules depth 9)

  Within-match_hashes : (s : Ptr × ℕ) → Within text n s.0 → Within text n (match_hashes s).0
  unfolding match_hashes
  Within-match_hashes =
      Within-loop {S = Ptr × ℕ} {pos = λ s. s.0} {end = λ s. s.0} match_hashes_round (λ s. s)
        (λ s text n w. search scan_rules depth 9)

LeftBelow-match_hashes : {m : ℕ} (s : Ptr × ℕ) → LeftBelow m s.0 → LeftBelow m (match_hashes s).0
LeftBelow-match_hashes s h = LeftBelow-Within (Within-match_hashes s (Within-here s.0)) h

module _ {text : List ℕ} {n : ℕ} where
  raw_string_loop :
      (hashes : ℕ) (ptr : Ptr)
      → Within text n ptr
      → Within text n (loop left (raw_string_round hashes) (λ q. q) ptr)
  unfolding raw_string_round
  raw_string_loop hashes =
      Within-loop {pos = λ p. p} {end = λ p. p} _ _
        (λ s text n w. search (scan_rules, Within-match_hashes, LeftBelow-match_hashes) depth 9)

  pub Within-scan_raw_string : (ptr : Ptr) → Within text n ptr → Within text n (scan_raw_string ptr)
  unfolding scan_raw_string
  Within-scan_raw_string ptr w = search (scan_rules, raw_string_loop, Within-count_hashes)
