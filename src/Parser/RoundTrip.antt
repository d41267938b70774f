-- ===== src/Parser/RoundTrip.antt =====
-- src/parser.c: lines of the grammar, parsed from their tokens.
use codecrafters_shell_c.Parser.Parse.{Allocator, WholeWords}
use codecrafters_shell_c.Common.{
  ℕ, zero, suc, ◌+◌, ◌≤◌, ◌<◌, ◌≡◌, refl, subst, sym, ◌∙◌, ◌≢◌, ◌||◌, true, false, List, [], ◌∷◌,
  ◌++◌, map, append_assoc, append-nil, arith, length, length-append, if◌then◌else◌,
}
use codecrafters_shell_c.Common.Outcome.{ok}
use codecrafters_shell_c.Tokens.{
  tok_word, tok_assignment_word, tok_eof, tok_semi, tok_amp, tok_newline, Token, newtok, same_type,
}
use codecrafters_shell_c.Syntax.{
  RedirMode, Redirect, sep_semi, sep_amp, Command, AndOr, ListElement, sep_none,
}
use codecrafters_shell_c.Parser.Stream.{TokenStream, ts_check, ts_read}
use codecrafters_shell_c.Parser.Parse.{list_loop, parse_list, at_list_end}
use codecrafters_shell_c.Parser.Left.{
  Left, Left-length, ts_read-Left, ts_check-Left, ts_check-Left_last, ts_at_end-Left,
}
use codecrafters_shell_c.Parser.Steps.{list_loop_on, list_loop_off}
use codecrafters_shell_c.Parser.Grammar.{
  redir_type, redirect_tokens, PipelineLine, Connective, conj, disj, AndOrLine, Separator, semi,
  amp, Line, command_tokens, piped_tokens, connected_tokens, and_or_tokens, separator_token,
  separated_tokens, line_tokens, and_or_tree, separator_sep, separated_elements, line_tree,
  AllSmallAndOrs, SmallLine,
}
use codecrafters_shell_c.Common.Bytes.{Bytes}
use codecrafters_shell_c.Parser.AndOrs.{Gives, EndsAndOr, parse_and_or-Gives}

-- The first token, if there is one, is neither TOK_EOF nor TOK_NEWLINE.
abbrev IsSolid : List Token → Type 0
IsSolid [] = Unit {0}
IsSolid (t ∷ ts) = (same_type t.type tok_eof ≡ false) × (same_type t.type tok_newline ≡ false)

append-IsSolid : (xs ys : List Token) → IsSolid xs → IsSolid ys → IsSolid (xs ++ ys)
append-IsSolid [] ys h k = k
append-IsSolid (x ∷ xs) ys h k = h

assigned-IsSolid : (xs : List Bytes) → IsSolid (map (newtok tok_assignment_word) xs)
assigned-IsSolid [] = tt
assigned-IsSolid (x ∷ xs) = (refl, refl)

words-IsSolid : (xs : List Bytes) → IsSolid (map (newtok tok_word) xs)
words-IsSolid [] = tt
words-IsSolid (x ∷ xs) = (refl, refl)

redir_type-IsSolid :
    (mode : RedirMode)
    → (same_type (redir_type mode) tok_eof ≡ false)
      × (same_type (redir_type mode) tok_newline ≡ false)
redir_type-IsSolid RedirMode.redir_in = (refl, refl)
redir_type-IsSolid _ = (refl, refl)

redirects-IsSolid : (rs : List Redirect) → IsSolid (redirect_tokens rs)
redirects-IsSolid [] = tt
redirects-IsSolid (r ∷ rs) = redir_type-IsSolid r.mode

piped-IsSolid : (cs : List Command) → IsSolid (piped_tokens cs)
piped-IsSolid [] = tt
piped-IsSolid (c ∷ cs) = (refl, refl)

connected-IsSolid : (ps : List (Connective × PipelineLine)) → IsSolid (connected_tokens ps)
connected-IsSolid [] = tt
connected-IsSolid ((conj, p) ∷ ps) = (refl, refl)
connected-IsSolid ((disj, p) ∷ ps) = (refl, refl)

command-IsSolid : (c : Command) → IsSolid (command_tokens c)
command-IsSolid c =
    append-IsSolid _ _ (assigned-IsSolid c.assignment_list)
      (append-IsSolid _ _ (words-IsSolid c.argv) (redirects-IsSolid c.redirs))

and_or-IsSolid : (a : AndOrLine) → IsSolid (and_or_tokens a)
and_or-IsSolid a =
    append-IsSolid _ _
      (append-IsSolid _ _ (command-IsSolid a.first.first) (piped-IsSolid a.first.others))
      (connected-IsSolid a.others)

solid-at_list_end :
    (xs ts : List Token) (e : Token) (s : TokenStream)
    → Left s (xs ++ ts) e
    → IsSolid xs
    → xs ≢ []
    → at_list_end s ≡ false
unfolding at_list_end
solid-at_list_end [] ts e s l h ne = absurd (ne refl)
solid-at_list_end (x ∷ xs) ts e s l h ne = rw (
  ts_at_end-Left s e x (xs ++ ts) l,
  ts_check-Left s e x (xs ++ ts) tok_eof l,
  ts_check-Left s e x (xs ++ ts) tok_newline l,
  h.0,
  h.1,
)

separated-EndsAndOr : (bs : List (Separator × AndOrLine)) → EndsAndOr (separated_tokens bs ++ [])
separated-EndsAndOr [] = tt
separated-EndsAndOr ((semi, b) ∷ bs) = (refl, refl, refl, refl)
separated-EndsAndOr ((amp, b) ∷ bs) = (refl, refl, refl, refl)

-- The separator that is read is the one that was written.
separator_read :
    (sep : Separator) (ts : List Token) (e : Token) (s : TokenStream)
    → Left s (separator_token sep ∷ ts) e
    → ((ts_check s tok_semi || ts_check s tok_amp) ≡ true)
      × ((if ts_check s tok_semi then sep_semi else sep_amp) ≡ separator_sep sep)
separator_read semi ts e s l =
    (rw (ts_check-Left s e _ ts tok_semi l), rw (ts_check-Left s e _ ts tok_semi l))
separator_read amp ts e s l = (
  rw (ts_check-Left s e _ ts tok_semi l, ts_check-Left s e _ ts tok_amp l),
  rw (ts_check-Left s e _ ts tok_semi l),
)

length-separated : (bs : List (Separator × AndOrLine)) → length bs ≤ length (separated_tokens bs)
length-separated [] = omega arith
length-separated ((sep, b) ∷ bs) =
    omega (arith, length-separated bs, length-append (and_or_tokens b) (separated_tokens bs))

module _ ⦃alloc : Allocator⦄ ⦃words : WholeWords alloc⦄ where
  list_loop-Gives :
      (f count : ℕ) (bs : List (Separator × AndOrLine)) (done : List ListElement) (a : AndOr)
      (e : Token) (s : TokenStream)
      → Left s (separated_tokens bs ++ []) e
      → AllSmallAndOrs bs
      → length bs < f
      → Gives
          (list_loop f count done (record { and_or = a; sep = sep_none }) s)
          (record { count = count + length bs; elements = done ++ separated_elements a bs })
          []
          e
  list_loop-Gives zero count bs done a e s l small fuel = absurd (omega arith)
  list_loop-Gives (suc f) count [] done a e s l small fuel = (
    s,
    list_loop_off f count done _ s
          (rw (ts_check-Left_last s e tok_semi l, ts_check-Left_last s e tok_amp l))
        ∙ ground arith,
    l,
  )
  list_loop-Gives (suc f) count ((sep, b) ∷ bs) done a e s l small fuel =
      let rest = separated_tokens bs ++ [] in
      let behind : Left (ts_read s).1 (and_or_tokens b ++ rest) e =
        subst (λ xs. Left (ts_read s).1 xs e)
          (append_assoc (and_or_tokens b) (separated_tokens bs) [])
          (ts_read-Left s e (separator_token sep) _ l).1 in
      let (s', run, left) =
        parse_and_or-Gives b rest e (ts_read s).1 behind (separated-EndsAndOr bs) small.0 in
      let el : ListElement = record { and_or = a; sep = separator_sep sep } in
      let (s'', run', left') =
        list_loop-Gives f (count + 1) bs (done ++ el ∷ []) (and_or_tree b) e s' left small.2
          (omega arith) in
      let (on, same) = separator_read sep _ e s l in
      (
        s'',
        list_loop_on f count done _ s on (
              solid-at_list_end (and_or_tokens b) rest e (ts_read s).1 behind (and_or-IsSolid b)
                small.1)
            ∙ rw (same, run)
                (run'
                  ∙ ground
                      (arith, append_assoc done (el ∷ []) (separated_elements (and_or_tree b) bs))),
        left',
      )

  -- A line of the grammar whose commands fit the vectors is parsed from its tokens to its tree, and
  -- only TOK_EOF is left.
  pub parse_list-line_tokens :
      (line : Line) (e : Token) (s : TokenStream)
      → Left s (line_tokens line) e
      → SmallLine line
      → (s' : TokenStream) × (parse_list s ≡ ok (line_tree line, s')) × Left s' [] e
  unfolding parse_list
  parse_list-line_tokens line e s l small =
      let rest = separated_tokens line.others ++ [] in
      let whole : Left s (and_or_tokens line.first ++ rest) e =
        subst (λ xs. Left s (and_or_tokens line.first ++ xs) e)
          (sym (append-nil (separated_tokens line.others))) l in
      let (s', run, left) =
        parse_and_or-Gives line.first rest e s whole (separated-EndsAndOr line.others) small.0 in
      let (s'', run', left') =
        list_loop-Gives (suc s'.len) 1 line.others [] (and_or_tree line.first) e s' left small.1 (
          omega (
            arith,
            Left-length s' e rest left,
            length-append (separated_tokens line.others) [],
            length-separated line.others,
          )) in
      (s'', rw run (run' ∙ ground arith), left')
