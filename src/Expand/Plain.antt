-- ===== src/Expand/Plain.antt =====
-- src/expand.c: what `expand_word` gives for a word that has nothing to expand.
use codecrafters_shell_c.Common.{
  true, ℕ, zero, suc, ◌-◌, ◌^◌, ◌<◌, ◌≡◌, ◌≢◌, refl, ap, ◌∙◌, Bool, false, List, [], ◌∷◌, ◌++◌,
  ◌==◌, Option, length, append-nil, arith,
}
use codecrafters_shell_c.Common.Bytes.{Bytes}
use codecrafters_shell_c.Common.Outcome.{fault, ◌>>=◌, Ends, Ends-bind, bind_assoc, bind_ext}
use codecrafters_shell_c.Lexer.Stream.{squote, dquote, backslash, unquoted}
use codecrafters_shell_c.Syntax.{ShellList}
use codecrafters_shell_c.Parser.Parse.{Allocator}
use codecrafters_shell_c.Vars.Store.{Vars}
use codecrafters_shell_c.StringBuilder.Buffer.{
  StringBuilder, sb_new_sized, sb_appendc, sb_takestring, c_text, filled,
}
use codecrafters_shell_c.StringBuilder.Laws.{sb_new_sized-Holds}
use codecrafters_shell_c.StringBuilder.Taken.{
  NoNul, append_bytes, append_bytes-Holds, c_text-unended, capacity-sb_new_sized,
}
use codecrafters_shell_c.Expand.Word.{word_round, word_loop, expand_word, append_byte}

-- No tilde, dollar sign, backslash or quote, and no NUL.
abbrev pub IsPlain : ℕ → Type 0
IsPlain c = (c ≢ 0) × (c ≢ b'~') × (c ≢ b'$') × (c ≢ backslash) × (c ≢ squote) × (c ≢ dquote)

abbrev pub AllPlain : Bytes → Type 0
AllPlain [] = Unit {0}
AllPlain (c ∷ cs) = IsPlain c × AllPlain cs

AllPlain-NoNul : (text : Bytes) → AllPlain text → NoNul text
AllPlain-NoNul [] h = tt
AllPlain-NoNul (c ∷ cs) (h, hs) = (h.0, AllPlain-NoNul cs hs)

module _ ⦃alloc : Allocator⦄ (vars : Vars) (capture : Option ShellList → Option (List Bytes))
    (junk : ℕ) where
  word_round-plain :
      (start : Bool) (c : ℕ) (cs : Bytes) (sb : StringBuilder)
      → IsPlain c
      → word_round vars capture junk start unquoted c cs sb
        ≡ append_byte vars capture junk unquoted c cs sb
  unfolding word_round
  word_round-plain start c cs sb (_, tilde, dollar, slash, single, double) =
      let no_tilde : (c == b'~') ≡ false = ground (arith, tilde) in
      let no_dollar : (c == b'$') ≡ false = ground (arith, dollar) in
      let no_slash : (c == backslash) ≡ false = ground (arith, slash) in
      let no_single : (c == squote) ≡ false = ground (arith, single) in
      let no_double : (c == dquote) ≡ false = ground (arith, double) in
      rw (no_tilde, no_dollar, no_slash, no_single, no_double) refl

  word_loop-plain :
      (f : ℕ) (start : Bool) (cs : Bytes) (sb : StringBuilder)
      → AllPlain cs
      → length cs < f
      → word_loop vars capture junk f start unquoted cs sb ≡ append_bytes junk sb cs
  unfolding word_loop append_bytes append_byte
  word_loop-plain zero start cs sb h fuel = absurd (omega arith)
  word_loop-plain (suc f) start [] sb h fuel = refl
  word_loop-plain (suc f) start (c ∷ cs) sb (h, hs) fuel =
      ap (λ o. o >>= λ (flag', cs', sb'). word_loop vars capture junk f false flag' cs' sb')
        (word_round-plain start c cs sb h)
      ∙ bind_assoc (sb_appendc junk sb c) _ _
      ∙ bind_ext (sb_appendc junk sb c) _ _ (λ sb'. word_loop-plain f false cs sb' hs (omega arith))

  -- A word of some bytes and less than 2^62, with no tilde, dollar sign, backslash, quote or NUL in
  -- it, is copied byte for byte: the block that `expand_word` gives is the word, with no NUL behind
  -- it, so that reading it as a string leaves the block.
  pub expand_word-plain :
      (str : Bytes)
      → AllPlain str
      → 0 < length str
      → length str < 2 ^ 62
      → Ends (λ block. (block ≡ str) × (c_text block ≡ fault)) (expand_word vars capture junk str)
  unfolding expand_word sb_takestring filled
  expand_word-plain str plain some small =
      rw
        (word_loop-plain (suc (length str)) true str (sb_new_sized (length str)) plain
          (omega arith))
        (Ends-bind _ (append_bytes junk (sb_new_sized (length str)) str) _
          (append_bytes-Holds junk str (sb_new_sized (length str)) []
            (sb_new_sized-Holds (length str) small)
            (omega (arith, capacity-sb_new_sized (length str) some)))
          (λ sb (k, same).
            let full : sb.capacity - length str ≡ 0 =
              omega (arith, same, capacity-sb_new_sized (length str) some) in
            let block : sb.str ≡ str =
              k.block ∙ ap (λ j. str ++ filled j 0) full ∙ append-nil str in
            (block, ap c_text block ∙ c_text-unended str (AllPlain-NoNul str plain))))
