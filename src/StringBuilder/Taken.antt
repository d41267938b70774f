-- ===== src/StringBuilder/Taken.antt =====
-- src/stringbuilder.c: a text appended byte by byte, as expand.c does, and then taken.
use codecrafters_shell_c.Common.Bytes.{Bytes}
use codecrafters_shell_c.Common.Outcome.{Outcome, ok, fault, ◌>>=◌, Ends, Ends-bind, Ends-mono}
use codecrafters_shell_c.Common.{
  [], ◌∷◌, ◌++◌, ◌==◌, suc, false, refl, ap, ◌∙◌, ◌≢◌, subst, length, length-append, append_assoc,
  append-nil, arith, ◌^◌, ℕ, ◌+◌, ◌-◌, ◌≤◌, ◌<◌, ◌≡◌,
}
use codecrafters_shell_c.StringBuilder.Buffer.{
  StringBuilder, sb_new_sized, sb_appendc, sb_takestring, c_text, filled,
}
use codecrafters_shell_c.StringBuilder.Laws.{sb_new_sized-Holds, sb_appendc-Holds, Holds}

-- No byte of a text is NUL.
abbrev pub NoNul : Bytes → Type 0
NoNul [] = Unit {0}
NoNul (c ∷ cs) = (c ≢ 0) × NoNul cs

-- `sb_appendc` of each byte in turn.
unfoldable pub append_bytes : ℕ → StringBuilder → Bytes → Outcome StringBuilder
append_bytes junk sb [] = ok sb
append_bytes junk sb (c ∷ cs) = do sb' ← sb_appendc junk sb c; append_bytes junk sb' cs

c_text-filled : (text : Bytes) (k : ℕ) → NoNul text → c_text (text ++ filled (suc k) 0) ≡ ok text
unfolding c_text filled
c_text-filled [] k h = refl
c_text-filled (c ∷ cs) k (h, hs) =
    let e : (c == 0) ≡ false = ground (arith, h) in rw (c_text, e, c_text-filled cs k hs) refl

pub c_text-unended : (text : Bytes) → NoNul text → c_text text ≡ fault
unfolding c_text
c_text-unended [] h = refl
c_text-unended (c ∷ cs) (h, hs) =
    let e : (c == 0) ≡ false = ground (arith, h) in rw (c_text, e, c_text-unended cs hs) refl

pub append_bytes-Holds :
    (junk : ℕ) (cs : Bytes) (sb : StringBuilder) (text : Bytes)
    → Holds sb text
    → length text + length cs ≤ sb.capacity
    → Ends (λ sb'. Holds sb' (text ++ cs) × (sb'.capacity ≡ sb.capacity)) (append_bytes junk sb cs)
unfolding append_bytes
append_bytes-Holds junk [] sb text h room = (rw (append-nil text) h, refl)
append_bytes-Holds junk (c ∷ cs) sb text h room =
    Ends-bind _ (sb_appendc junk sb c) _ (sb_appendc-Holds junk sb text c h (omega arith))
      (λ sb' (k, same).
        Ends-mono (append_bytes junk sb' cs)
          (λ sb'' (k', same').
            (subst (Holds sb'') (append_assoc text (c ∷ []) cs) k', same' ∙ same))
          (append_bytes-Holds junk cs sb' (text ++ c ∷ []) k
            (omega (arith, same, length-append text (c ∷ [])))))

pub capacity-sb_new_sized : (n : ℕ) → 0 < n → (sb_new_sized n).capacity ≡ n
unfolding sb_new_sized
capacity-sb_new_sized n h = ground (arith, h)

taken_whole :
    (junk n : ℕ) (text : Bytes)
    → NoNul text
    → length text < n
    → n < 2 ^ 62
    → Ends (λ sb. c_text (sb_takestring sb).0 ≡ ok text) (append_bytes junk (sb_new_sized n) text)
unfolding sb_takestring
taken_whole junk n text clean room small =
    Ends-mono (append_bytes junk (sb_new_sized n) text)
      (λ sb (k, same).
        let behind : sb.capacity - length text ≡ suc (sb.capacity - length text - 1) =
          omega (arith, capacity-sb_new_sized n (omega arith)) in
        ap c_text k.block
        ∙ ap (λ j. c_text (text ++ filled j 0)) behind
        ∙ c_text-filled text (sb.capacity - length text - 1) clean)
      (append_bytes-Holds junk text (sb_new_sized n) [] (sb_new_sized-Holds n small)
        (omega (arith, capacity-sb_new_sized n (omega arith))))

taken_unended :
    (junk : ℕ) (text : Bytes)
    → NoNul text
    → 0 < length text
    → length text < 2 ^ 62
    → Ends
        (λ sb. c_text (sb_takestring sb).0 ≡ fault)
        (append_bytes junk (sb_new_sized (length text)) text)
unfolding sb_takestring
taken_unended junk text clean some small =
    Ends-mono (append_bytes junk (sb_new_sized (length text)) text)
      (λ sb (k, same).
        let none : sb.capacity - length text ≡ 0 =
          omega (arith, capacity-sb_new_sized (length text) some) in
        ap c_text k.block
        ∙ ap (λ j. c_text (text ++ filled j 0)) none
        ∙ ap c_text (append-nil text)
        ∙ c_text-unended text clean)
      (append_bytes-Holds junk text (sb_new_sized (length text)) []
        (sb_new_sized-Holds (length text) small)
        (omega (arith, capacity-sb_new_sized (length text) some)))

-- A text of some bytes, none of them a NUL, and less than 2^62, is appended byte by byte to a new
-- builder. With more room than the text has bytes, and less than 2^62, the text is read back whole
-- from the block that `sb_takestring` gives out; with just as many bytes of room no NUL stands behind
-- the text, and reading it leaves the block.
pub sb_takestring-append_bytes :
    (junk n : ℕ) (text : Bytes)
    → NoNul text
    → 0 < length text
    → length text < n
    → n < 2 ^ 62
    → Ends (λ sb. c_text (sb_takestring sb).0 ≡ ok text) (append_bytes junk (sb_new_sized n) text)
      × Ends
          (λ sb. c_text (sb_takestring sb).0 ≡ fault)
          (append_bytes junk (sb_new_sized (length text)) text)
sb_takestring-append_bytes junk n text clean some room small =
    (taken_whole junk n text clean room small, taken_unended junk text clean some (omega arith))
