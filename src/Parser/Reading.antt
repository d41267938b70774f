-- ===== src/Parser/Reading.antt =====
-- src/parser.c: the rounds of `parse_command` that read assignments, words and redirections.
use codecrafters_shell_c.Parser.Parse.{Allocator}
use codecrafters_shell_c.Common.{
  ℕ, suc, ◌+◌, ◌≤◌, ◌<◌, ◌≡◌, refl, ap, ◌∙◌, ◌≢◌, List, [], ◌∷◌, ◌++◌, map, append_assoc,
  append-nil, arith, length, length-append, some,
}
use codecrafters_shell_c.Common.Bytes.{Bytes}
use codecrafters_shell_c.Common.Outcome.{ok}
use codecrafters_shell_c.Tokens.{tok_word, tok_assignment_word, Token, newtok, token_new}
use codecrafters_shell_c.Syntax.{RedirMode, redir_err, Redirect}
use codecrafters_shell_c.Parser.Stream.{TokenStream, ts_peek, ts_read, ts_expect}
use codecrafters_shell_c.Parser.Vectors.{ArgVector, av_append, RedirVec, rv_append}
use codecrafters_shell_c.Parser.Parse.{
  is_redirect, from_redir_tok, Parts, take_arg, take_target, take_token, command_loop,
}
use codecrafters_shell_c.Parser.Left.{Left, ts_peek-Left, ts_read-Left, ts_check-Left}
use codecrafters_shell_c.Parser.Steps.{command_loop_on}
use codecrafters_shell_c.Parser.Grammar.{redir_text, redir_type, redirect_tokens, Known}

-- The vectors hold the given items, in a block of their first size.
pub record HoldsArgs (vec : ArgVector) (xs : List Bytes) : Type 0 where
  pub size : vec.size ≡ length xs
  pub capacity : vec.capacity ≡ 16
  pub room : vec.room ≡ 128
  pub arr : vec.arr ≡ xs

pub record HoldsRedirs (vec : RedirVec) (xs : List Redirect) : Type 0 where
  pub size : vec.size ≡ length xs
  pub capacity : vec.capacity ≡ 16
  pub room : vec.room ≡ 256
  pub arr : vec.arr ≡ xs

pub av_append-HoldsArgs :
    (vec : ArgVector) (xs : List Bytes) (x : Bytes)
    → HoldsArgs vec xs
    → length xs < 16
    → (av_append vec x ≡ ok (record vec { size = vec.size + 1; arr = vec.arr ++ x ∷ [] }))
      × HoldsArgs (record vec { size = vec.size + 1; arr = vec.arr ++ x ∷ [] }) (xs ++ x ∷ [])
unfolding av_append
av_append-HoldsArgs vec xs x h lt = (
  ground (arith, h.size, h.capacity, h.room),
  record {
    size = omega (arith, h.size, length-append xs (x ∷ []));
    capacity = h.capacity;
    room = h.room;
    arr = ap (λ ys. ys ++ x ∷ []) h.arr;
  },
)

pub rv_append-HoldsRedirs :
    (vec : RedirVec) (xs : List Redirect) (x : Redirect)
    → HoldsRedirs vec xs
    → length xs < 16
    → (rv_append vec x ≡ ok (record vec { size = vec.size + 1; arr = vec.arr ++ x ∷ [] }))
      × HoldsRedirs (record vec { size = vec.size + 1; arr = vec.arr ++ x ∷ [] }) (xs ++ x ∷ [])
unfolding rv_append
rv_append-HoldsRedirs vec xs x h lt = (
  ground (arith, h.size, h.capacity, h.room),
  record {
    size = omega (arith, h.size, length-append xs (x ∷ []));
    capacity = h.capacity;
    room = h.room;
    arr = ap (λ ys. ys ++ x ∷ []) h.arr;
  },
)

-- The locals of `parse_command` when it has read these assignments, words and redirections.
pub record At (p : Parts) (assigned args : List Bytes) (redirs : List Redirect) : Type 0 where
  pub holds_args : HoldsArgs p.av args
  pub holds_redirs : HoldsRedirs p.rv redirs
  pub assigned_so_far : p.assignments ≡ assigned

-- `take_token` at the token that comes next.
pub round-Left :
    (t : Token) (ts : List Token) (e : Token) (p : Parts)
    → Left p.stream (t ∷ ts) e
    → take_token (ts_peek p.stream).type (ts_peek p.stream) p ≡ take_token t.type t p
round-Left t ts e p h = ap (λ (u : Token). take_token u.type u p) (ts_peek-Left p.stream e t ts h)

module _ ⦃alloc : Allocator⦄ where
  -- From `p` with fuel `n + f`, `n` rounds lead to a state that satisfies `P`, with fuel `f`.
  abbrev pub Leads : ℕ → Parts → (Parts → Type 0) → Type 0
  Leads n p P = (q : Parts) × ((f : ℕ) → command_loop (n + f) p ≡ command_loop f q) × P q

  pub Leads-zero : (p : Parts) (P : Parts → Type 0) → P p → Leads 0 p P
  Leads-zero p P h = (p, (λ f. ap (λ n. command_loop n p) (omega arith)), h)

  pub Leads-suc :
      (n : ℕ) (p q : Parts) (P : Parts → Type 0)
      → take_token (ts_peek p.stream).type (ts_peek p.stream) p ≡ ok (some q)
      → Leads n q P
      → Leads (suc n) p P
  Leads-suc n p q P e (r, run, h) = (
    r,
    (λ f.
        ap (λ n. command_loop n p) {y = suc (n + f)} (omega arith)
        ∙ command_loop_on (n + f) p q e
        ∙ run f),
    h,
  )

  abbrev pub ReadsOn : List Bytes → List Bytes → List Redirect → List Token → Token → Parts → Type 0
  ReadsOn as' xs rs ts e q = At q as' xs rs × Left q.stream ts e

  pub read_assignments :
      (as' : List Bytes) (ts : List Token) (e : Token) (p : Parts) (before : List Bytes)
      → Left p.stream (map (newtok tok_assignment_word) as' ++ ts) e
      → At p before [] []
      → Leads (length as') p (ReadsOn (before ++ as') [] [] ts e)
  unfolding take_token
  read_assignments [] ts e p before l a =
      Leads-zero p (ReadsOn (before ++ []) [] [] ts e) (rw append-nil a, l)
  read_assignments (x ∷ xs) ts e p before l a =
      let q : Parts = record p {
        assignments = p.assignments ++ x ∷ [];
        stream = (ts_read p.stream).1;
      } in
      Leads-suc (length xs) p q (ReadsOn (before ++ x ∷ xs) [] [] ts e)
        (round-Left (newtok tok_assignment_word x) (map (newtok tok_assignment_word) xs ++ ts) e p l
          ∙ ground (arith, a.holds_args.size))
        (rw (← append_assoc before (x ∷ []) xs) (
          read_assignments xs ts e q (before ++ x ∷ []) (ts_read-Left p.stream e _ _ l).1 (record {
            holds_args = a.holds_args;
            holds_redirs = a.holds_redirs;
            assigned_so_far = ap (λ ys. ys ++ x ∷ []) a.assigned_so_far;
          })))

  pub read_args :
      (ws : List Bytes) (ts : List Token) (e : Token) (p : Parts) (as' before : List Bytes)
      → Left p.stream (map (newtok tok_word) ws ++ ts) e
      → At p as' before []
      → length before + length ws ≤ 16
      → Leads (length ws) p (ReadsOn as' (before ++ ws) [] ts e)
  unfolding take_token take_arg
  read_args [] ts e p as' before l a le =
      Leads-zero p (ReadsOn as' (before ++ []) [] ts e) (rw append-nil a, l)
  read_args (w ∷ ws) ts e p as' before l a le =
      let (appended, held) = av_append-HoldsArgs p.av before w a.holds_args (omega arith) in
      let q : Parts = record p {
        av = record (p.av) { size = p.av.size + 1; arr = p.av.arr ++ w ∷ [] };
        stream = (ts_read p.stream).1;
      } in
      Leads-suc (length ws) p q (ReadsOn as' (before ++ w ∷ ws) [] ts e)
        (round-Left (newtok tok_word w) (map (newtok tok_word) ws ++ ts) e p l ∙ rw appended)
        (rw (← append_assoc before (w ∷ []) ws) (
          read_args ws ts e q as' (before ++ w ∷ []) (ts_read-Left p.stream e _ _ l).1
            (record {
              holds_args = held;
              holds_redirs = a.holds_redirs;
              assigned_so_far = a.assigned_so_far;
            })
            (omega (arith, length-append before (w ∷ [])))))

  pub ts_expect_word :
      (s : TokenStream) (w : Bytes) (ts : List Token) (e : Token)
      → Left s (newtok tok_word w ∷ ts) e
      → ts_expect s tok_word ≡ (some (newtok tok_word w), (ts_read s).1)
  unfolding ts_expect
  ts_expect_word s w ts e l = rw (
    ts_check-Left s e (newtok tok_word w) ts tok_word l,
    (ts_read-Left s e (newtok tok_word w) ts l).0,
  )

  pub take_token_redir :
      (mode : RedirMode) (fd : ℕ) (p : Parts)
      → mode ≢ redir_err
      → let tok = token_new (redir_type mode) (redir_text mode fd) fd in
        (take_token (redir_type mode) tok p
          ≡ take_target tok (ts_expect (ts_read p.stream).1 tok_word) p)
        × (from_redir_tok (redir_type mode) ≡ mode)
  unfolding take_token is_redirect from_redir_tok
  take_token_redir RedirMode.redir_in fd p h = (refl, refl)
  take_token_redir RedirMode.redir_out fd p h = (refl, refl)
  take_token_redir RedirMode.redir_append fd p h = (refl, refl)
  take_token_redir RedirMode.redir_heredoc fd p h = (refl, refl)
  take_token_redir redir_err fd p h = absurd (h refl)

  pub read_redirects :
      (rs : List Redirect) (ts : List Token) (e : Token) (p : Parts) (as' ws : List Bytes)
      (before : List Redirect)
      → Left p.stream (redirect_tokens rs ++ ts) e
      → At p as' ws before
      → Known rs
      → length before + length rs ≤ 16
      → Leads (length rs) p (ReadsOn as' ws (before ++ rs) ts e)
  unfolding take_target
  read_redirects [] ts e p as' ws before l a known le =
      Leads-zero p (ReadsOn as' ws (before ++ []) ts e) (rw append-nil a, l)
  read_redirects (r ∷ rs) ts e p as' ws before l a known le =
      let tok : Token = token_new (redir_type r.mode) (redir_text r.mode r.fd) r.fd in
      let s' : TokenStream = (ts_read p.stream).1 in
      let behind =
        (ts_read-Left p.stream e tok (newtok tok_word r.target ∷ redirect_tokens rs ++ ts) l).1 in
      let (appended, held) = rv_append-HoldsRedirs p.rv before r a.holds_redirs (omega arith) in
      let q : Parts = record p {
        rv = record (p.rv) { size = p.rv.size + 1; arr = p.rv.arr ++ r ∷ [] };
        stream = (ts_read s').1;
      } in
      let (round, mode) = take_token_redir r.mode r.fd p known.0 in
      Leads-suc (length rs) p q (ReadsOn as' ws (before ++ r ∷ rs) ts e)
        (round-Left tok (newtok tok_word r.target ∷ redirect_tokens rs ++ ts) e p l
          ∙ round
          ∙ rw (
            ts_expect_word s' r.target (redirect_tokens rs ++ ts) e behind,
            take_target,
            mode,
            appended,
          ))
        (rw (← append_assoc before (r ∷ []) rs) (
          read_redirects rs ts e q as' ws (before ++ r ∷ []) (ts_read-Left s' e _ _ behind).1
            (record {
              holds_args = a.holds_args;
              holds_redirs = held;
              assigned_so_far = a.assigned_so_far;
            })
            known.1 (omega (arith, length-append before (r ∷ [])))))
