-- ===== src/StringBuilder/Blocks.antt =====
-- src/stringbuilder.c: writing into a block that is cleared behind a text, and how far it grows.
use codecrafters_shell_c.Common.{
  ℕ, subst, zero, suc, ◌+◌, ◌-◌, ◌*◌, ◌%◌, ◌^◌, ◌≤◌, ◌<◌, ◌≡◌, refl, sym, ap, ◌∙◌, false, [], ◌∷◌,
  ◌++◌, leb, length, length-append, append_assoc, append-nil, arith, inl, inr, Bool-cases,
}
use codecrafters_shell_c.Common.Bytes.{Bytes}
use codecrafters_shell_c.Common.Outcome.{ok, fault, Ends}
use codecrafters_shell_c.StringBuilder.Buffer.{
  filled, write_at, write_all, find_nul, strcat, growth_loop, size_mod,
}

pub length-filled : (n c : ℕ) → length (filled n c) ≡ n
unfolding filled
length-filled zero c = refl
length-filled (suc n) c = omega (arith, length-filled n c)

write_at-append :
    (pre : Bytes) (b : ℕ) (bs : Bytes) (c : ℕ)
    → write_at (pre ++ b ∷ bs) (length pre) c ≡ ok (pre ++ c ∷ bs)
unfolding write_at
write_at-append [] b bs c = refl
write_at-append (p ∷ pre) b bs c = rw (write_at-append pre b bs c) refl

pub write_at-end : (pre : Bytes) (c : ℕ) → write_at pre (length pre) c ≡ fault
unfolding write_at
write_at-end [] c = refl
write_at-end (p ∷ pre) c = rw (write_at-end pre c) refl

pub write_at-filled :
    (pre : Bytes) (k c : ℕ)
    → write_at (pre ++ filled (suc k) 0) (length pre) c ≡ ok ((pre ++ c ∷ []) ++ filled k 0)
unfolding filled
write_at-filled pre k c =
    write_at-append pre 0 (filled k 0) c ∙ ap ok (sym (append_assoc pre (c ∷ []) (filled k 0)))

-- What fits is written behind the text.
pub write_all-filled :
    (ys pre : Bytes) (k : ℕ)
    → length ys ≤ k
    → write_all (pre ++ filled k 0) (length pre) ys ≡ ok ((pre ++ ys) ++ filled (k - length ys) 0)
unfolding write_all
write_all-filled [] pre k h =
    ap ok (ap (λ xs. xs ++ filled k 0) (sym (append-nil pre)))
    ∙ ap (λ n. ok ((pre ++ []) ++ filled n 0)) (omega arith)
write_all-filled (y ∷ ys) pre zero h = absurd (omega arith)
write_all-filled (y ∷ ys) pre (suc k) h = rw (write_at-filled pre k y) (
    ap (λ n. write_all ((pre ++ y ∷ []) ++ filled k 0) n ys)
      (omega (arith, length-append pre (y ∷ [])))
    ∙ write_all-filled ys (pre ++ y ∷ []) k (omega arith)
    ∙ ap (λ xs. ok (xs ++ filled (k - length ys) 0)) (append_assoc pre (y ∷ []) ys)
    ∙ ap (λ n. ok ((pre ++ y ∷ ys) ++ filled n 0)) (omega arith))

-- What does not fit leaves the block.
pub write_all-over :
    (ys pre : Bytes) (k : ℕ) → k < length ys → write_all (pre ++ filled k 0) (length pre) ys ≡ fault
unfolding write_all filled
write_all-over [] pre k h = absurd (omega arith)
write_all-over (y ∷ ys) pre zero h =
    let e : write_at (pre ++ []) (length pre) y ≡ fault =
      ap (λ xs. write_at xs (length pre) y) (append-nil pre) ∙ write_at-end pre y in
    rw e refl
write_all-over (y ∷ ys) pre (suc k) h = rw (write_at-filled pre k y) (
    ap (λ n. write_all ((pre ++ y ∷ []) ++ filled k 0) n ys)
      (omega (arith, length-append pre (y ∷ [])))
    ∙ write_all-over ys (pre ++ y ∷ []) k (omega arith))

find_nul-filled :
    (pre : Bytes) (k at : ℕ)
    → find_nul (pre ++ filled (suc k) 0) (length pre) at ≡ ok (at + length pre)
unfolding find_nul filled
find_nul-filled [] k at = ap ok (omega arith)
find_nul-filled (p ∷ pre) k at = find_nul-filled pre k (at + 1) ∙ ap ok (omega arith)

find_nul-end : (pre : Bytes) (at : ℕ) → find_nul pre (length pre) at ≡ fault
unfolding find_nul
find_nul-end [] at = refl
find_nul-end (p ∷ pre) at = find_nul-end pre (at + 1)

pub strcat-filled :
    (text pre : Bytes) (k : ℕ)
    → length text < k
    → strcat (pre ++ filled k 0) (length pre) text
      ≡ ok ((pre ++ text) ++ filled (k - length text) 0)
unfolding strcat filled
strcat-filled text pre zero h = absurd (omega arith)
strcat-filled text pre (suc k) h = rw (find_nul-filled pre k 0) (
    ap (λ n. write_all (pre ++ filled (suc k) 0) n (text ++ 0 ∷ [])) (omega arith)
    ∙ write_all-filled (text ++ 0 ∷ []) pre (suc k) (omega (arith, length-append text (0 ∷ [])))
    ∙ ap ok (closed (k - length text) (omega (arith, length-append text (0 ∷ []))) (omega arith)))
  where
    closed :
        (j : ℕ)
        → suc k - length (text ++ 0 ∷ []) ≡ j
        → suc k - length text ≡ suc j
        → (pre ++ (text ++ 0 ∷ [])) ++ filled (suc k - length (text ++ 0 ∷ [])) 0
          ≡ (pre ++ text) ++ filled (suc k - length text) 0
    closed j e e' =
        rw (e, e')
          (ap (λ xs. xs ++ filled j 0) (sym (append_assoc pre text (0 ∷ [])))
            ∙ append_assoc (pre ++ text) (0 ∷ []) (filled j 0))

pub strcat-over :
    (text pre : Bytes) (k : ℕ)
    → k ≤ length text
    → strcat (pre ++ filled k 0) (length pre) text ≡ fault
unfolding strcat filled
strcat-over text pre zero h =
    let e : find_nul (pre ++ []) (length pre) 0 ≡ fault =
      ap (λ xs. find_nul xs (length pre) 0) (append-nil pre) ∙ find_nul-end pre 0 in
    rw e refl
strcat-over text pre (suc k) h = rw (find_nul-filled pre k 0) (
    ap (λ n. write_all (pre ++ filled (suc k) 0) n (text ++ 0 ∷ [])) (omega arith)
    ∙ write_all-over (text ++ 0 ∷ []) pre (suc k) (omega (arith, length-append text (0 ∷ []))))

-- `b` doubled `f` times.
unfoldable pub reach : ℕ → ℕ → ℕ
reach zero b = b
reach (suc f) b = reach f (b * 2)

pub growth_loop-Ends :
    (f b c size needed : ℕ)
    → b ≤ c
    → size ≤ c
    → c < 2 ^ 62
    → size + needed < 2 ^ 61
    → size + needed < reach f b
    → Ends (λ k. (size + needed < k) × (k < 2 ^ 62)) (growth_loop (suc f) c size needed)
unfolding growth_loop reach
growth_loop-Ends zero b c size needed le le' small bound far =
    let enough : leb ((c + size_mod - size) % size_mod) needed ≡ false = ground arith in
    rw (growth_loop, enough) (omega arith)
growth_loop-Ends (suc f) b c size needed le le' small bound far =
    elim (Bool-cases (leb ((c + size_mod - size) % size_mod) needed)) [
      | inl short ↦
          let c' : c * 2 % size_mod ≡ c * 2 = ground arith in
          rw (growth_loop, short)
            (subst
              (λ x.
                Ends (λ k. (size + needed < k) × (k < 2 ^ 62)) (growth_loop (suc f) x size needed))
              (sym c')
              (growth_loop-Ends f (b * 2) (c * 2) size needed (omega arith) (omega arith)
                (ground arith) bound far))
      | inr enough ↦ rw (growth_loop, enough) (ground arith)
    ]
