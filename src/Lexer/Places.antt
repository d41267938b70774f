-- ===== src/Lexer/Places.antt =====
-- src/lexer.c: the stream at a place of a text, seen as the text that stands behind the place.
use codecrafters_shell_c.Common.{
  ℕ, suc, ◌+◌, ◌≤◌, ◌≡◌, refl, ap, subst, ◌++◌, ◌∙◌, ◌==◌, true, false, [], ◌∷◌, length, drop,
  head_or, tail, get_or, get_or-drop, drop-suc, length-drop, arith,
}
use codecrafters_shell_c.Common.Bytes.{Bytes}
use codecrafters_shell_c.Lexer.Stream.{CharStream, cs_peek, cs_peek_ahead, skip, eoi}

-- The stream over a text, at a place in it.
abbrev pub place : Bytes → ℕ → CharStream
place text p = record { bytes = text; pos = p; len = length text }

-- The rest stands behind the place.
pub record Behind (text : Bytes) (p : ℕ) (rest : Bytes) : Type 0 where
  pub left : drop p text ≡ rest
  pub within : p ≤ length text

-- The character that comes next, or EOI.
abbrev pub next : Bytes → ℕ
next rest = head_or eoi rest

module _ (text : Bytes) (p : ℕ) where
  pub length-Behind : (rest : Bytes) → Behind text p rest → p + length rest ≡ length text
  length-Behind rest h = omega (arith, h.within, ap length h.left, length-drop p text)

  pub next-Behind : (c : ℕ) (rest : Bytes) → Behind text p (c ∷ rest) → Behind text (suc p) rest
  next-Behind c rest h = record {
    left = drop-suc p text ∙ ap tail h.left;
    within = omega (arith, length-Behind (c ∷ rest) h);
  }

  pub peek-Behind : (rest : Bytes) → Behind text p rest → cs_peek (place text p) ≡ next rest
  unfolding cs_peek
  peek-Behind [] h =
      let last : (p == length text) ≡ true = ground (arith, length-Behind [] h) in rw last refl
  peek-Behind (c ∷ rest) h =
      let more : (p == length text) ≡ false = ground (arith, length-Behind (c ∷ rest) h) in
      rw more (get_or-drop p text 0 ∙ ap (head_or 0) h.left)

  pub skip-Behind :
      (c : ℕ) (rest : Bytes) → Behind text p (c ∷ rest) → skip (place text p) ≡ place text (suc p)
  unfolding skip
  skip-Behind c rest h = ground (arith, length-Behind (c ∷ rest) h)

  pub ahead-Behind :
      (c : ℕ) (rest : Bytes) → Behind text p (c ∷ rest) → cs_peek_ahead (place text p) 1 ≡ next rest
  unfolding cs_peek_ahead
  ahead-Behind c [] h = ground (arith, length-Behind (c ∷ []) h)
  ahead-Behind c (d ∷ rest) h =
      let at : get_or text (p + 1) 0 ≡ d =
        ap (λ n. get_or text n 0) (omega arith)
        ∙ get_or-drop (suc p) text 0
        ∙ ap (head_or 0) (drop-suc p text ∙ ap tail h.left) in
      ground (arith, length-Behind (c ∷ d ∷ rest) h, at)

-- Behind the first part of a text stands its second.
pub append-Behind :
    (text : Bytes) (p q : ℕ) (xs ys : Bytes)
    → Behind text p (xs ++ ys)
    → p + length xs ≡ q
    → Behind text q ys
append-Behind text p q [] ys b e = subst (λ n. Behind text n ys) (omega arith) b
append-Behind text p q (x ∷ xs) ys b e =
    append-Behind text (suc p) q xs ys (next-Behind text p x (xs ++ ys) b) (omega arith)
