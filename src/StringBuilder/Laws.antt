-- ===== src/StringBuilder/Laws.antt =====
-- src/stringbuilder.c: what a builder holds after each operation, and where it leaves its block.
use codecrafters_shell_c.Common.{
  ℕ, suc, ◌+◌, ◌-◌, ◌*◌, ◌%◌, ◌^◌, ◌≤◌, ◌<◌, ◌≡◌, ◌≢◌, refl, ap, ◌∙◌, false, [], ◌∷◌, ◌++◌, ◌==◌,
  leb, if◌then◌else◌, length, take, length-append, append-nil, take-append, arith, inl, inr,
  Bool-cases,
}
use codecrafters_shell_c.Common.Bytes.{Bytes}
use codecrafters_shell_c.Common.Outcome.{ok, fault, ◌>>=◌, Ends, Ends-bind}
use codecrafters_shell_c.StringBuilder.Buffer.{
  StringBuilder, size_mod, filled, sb_new_sized, strcat, grown, growth_loop, realloc_cleared,
  before, sb_appends, sb_appendc, write_at,
}
use codecrafters_shell_c.StringBuilder.Blocks.{
  write_at-end, write_at-filled, strcat-filled, strcat-over, growth_loop-Ends, reach,
}

-- The text stands at the front of the block, and the rest of the block is cleared.
pub record Holds (sb : StringBuilder) (text : Bytes) : Type 0 where
  pub block : sb.str ≡ text ++ filled (sb.capacity - length text) 0
  pub sized : sb.size ≡ length text
  pub within : length text ≤ sb.capacity
  pub some_room : 0 < sb.capacity
  pub small : sb.capacity < 2 ^ 62

pub sb_new_sized-Holds : (n : ℕ) → n < 2 ^ 62 → Holds (sb_new_sized n) []
unfolding sb_new_sized
sb_new_sized-Holds n h =
    let capacity : ℕ = if n == 0 then 16 else n in
    record {
      block = ap (λ k. filled k 0) (omega arith);
      sized = refl;
      within = omega arith;
      some_room = ground arith;
      small = ground arith;
    }

take-front : (text rest : Bytes) (n : ℕ) → n ≡ length text → take n (text ++ rest) ≡ text
take-front text rest n e = rw e (take-append text rest)

grown-Ends :
    (sb : StringBuilder) (text : Bytes) (needed : ℕ)
    → Holds sb text
    → length text + needed < 2 ^ 61
    → sb.capacity ≤ length text + needed
    → Ends (λ sb'. Holds sb' text × (length text + needed < sb'.capacity)) (grown sb needed)
unfolding grown realloc_cleared reach
grown-Ends sb text needed h bound short =
    let given : (if sb.capacity == 0 then 16 else sb.capacity) * 2 % size_mod ≡ sb.capacity * 2 =
      ground (arith, h.some_room) in
    rw (grown, given)
      (Ends-bind (λ sb'. Holds sb' text × (length text + needed < sb'.capacity))
        (growth_loop 64 (sb.capacity * 2) sb.size needed) _
        (growth_loop-Ends 63 2 (sb.capacity * 2) sb.size needed (omega (arith, h.some_room))
          (omega (arith, h.within, h.sized)) (omega arith) (omega (arith, h.sized))
          (omega (arith, h.sized)))
        (λ k (far, less). (
          record {
            block =
                ap (λ xs. xs ++ filled (k - sb.size) 0)
                  (ap (take sb.size) h.block ∙ take-front text _ sb.size h.sized)
                ∙ ap (λ n. text ++ filled (k - n) 0) h.sized;
            sized = h.sized;
            within = omega (arith, h.sized);
            some_room = omega arith;
            small = less;
          },
          omega (arith, h.sized),
        )))

-- The block of a builder in the form that the lemmas on `strcat` read.
strcat-Holds :
    (sb : StringBuilder) (text more : Bytes)
    → Holds sb text
    → strcat sb.str sb.size more
      ≡ strcat (text ++ filled (sb.capacity - length text) 0) (length text) more
strcat-Holds sb text more h =
    ap (λ b. strcat b sb.size more) h.block
    ∙ ap (λ n. strcat (text ++ filled (sb.capacity - length text) 0) n more) h.sized

appended :
    (sb : StringBuilder) (text more : Bytes)
    → Holds sb text
    → length text + length more < sb.capacity
    → Ends
        (λ sb'. Holds sb' (text ++ more))
        (strcat sb.str sb.size more >>= λ block.
          ok (record sb { str = block; size = sb.size + length more }))
appended sb text more h room =
    rw
      (strcat-Holds sb text more h
        ∙ strcat-filled more text (sb.capacity - length text) (omega arith))
      (record {
        block = ap (λ n. (text ++ more) ++ filled n 0) (omega (arith, length-append text more));
        sized = omega (arith, h.sized, length-append text more);
        within = omega (arith, length-append text more);
        some_room = h.some_room;
        small = h.small;
      })

-- The test of `sb_appends`, whose difference of sizes wraps round at an empty builder.
short-eq :
    (capacity size n : ℕ)
    → size ≤ capacity
    → capacity < 2 ^ 62
    → leb ((capacity + size_mod - before size) % size_mod) n ≡ leb (capacity + 1) (size + n)
short-eq capacity size n h k = ground arith

-- On a builder that holds a text, `sb_appends` of another text returns a builder that holds the two,
-- growing as far as it must, unless the two fill the block to its last byte.
pub sb_appends-Holds :
    (sb : StringBuilder) (text more : Bytes)
    → Holds sb text
    → length text + length more < 2 ^ 61
    → length text + length more ≢ sb.capacity
    → Ends (λ sb'. Holds sb' (text ++ more)) (sb_appends sb more)
unfolding sb_appends
sb_appends-Holds sb text more h bound differs =
    let test =
      short-eq sb.capacity sb.size (length more) (omega (arith, h.within, h.sized)) h.small in
    elim (Bool-cases (leb (sb.capacity + 1) (sb.size + length more))) [
      | inl short ↦
          rw (test, short)
            (Ends-bind (λ sb'. Holds sb' (text ++ more)) (grown sb (length more)) _
              (grown-Ends sb text (length more) h bound (ground (arith, h.sized)))
              (λ sb' (k, room). appended sb' text more k room))
      | inr fits ↦ rw (test, fits) (appended sb text more h (ground (arith, h.sized)))
    ]

-- On a builder that holds a text, `sb_appends` of another text that fills the block to its last byte
-- does not grow it, and writes the NUL beyond the block.
pub sb_appends-full :
    (sb : StringBuilder) (text more : Bytes)
    → Holds sb text
    → length text + length more ≡ sb.capacity
    → sb_appends sb more ≡ fault
unfolding sb_appends
sb_appends-full sb text more h full =
    let test =
      short-eq sb.capacity sb.size (length more) (omega (arith, h.within, h.sized)) h.small in
    let fits : leb (sb.capacity + 1) (sb.size + length more) ≡ false = ground (arith, h.sized) in
    let over : strcat sb.str sb.size more ≡ fault =
      strcat-Holds sb text more h
      ∙ strcat-over more text (sb.capacity - length text) (omega arith) in
    rw (test, fits) (rw over refl)

-- The block of a builder in the form that the lemmas on `write_at` read.
write_at-Holds :
    (sb : StringBuilder) (text : Bytes) (c : ℕ)
    → Holds sb text
    → write_at sb.str sb.size c
      ≡ write_at (text ++ filled (sb.capacity - length text) 0) (length text) c
write_at-Holds sb text c h =
    ap (λ b. write_at b sb.size c) h.block
    ∙ ap (λ n. write_at (text ++ filled (sb.capacity - length text) 0) n c) h.sized

-- The test of `sb_appendc` never asks for room while the text is within the block.
never_grows :
    (sb : StringBuilder) (text : Bytes) → Holds sb text → (before sb.size == sb.capacity) ≡ false
never_grows sb text h = ground (arith, h.sized, h.within, h.small, h.some_room)

-- On a builder that holds a text and has room for another byte, `sb_appendc` puts a byte behind it.
pub sb_appendc-Holds :
    (junk : ℕ) (sb : StringBuilder) (text : Bytes) (c : ℕ)
    → Holds sb text
    → length text < sb.capacity
    → Ends (λ sb'. Holds sb' (text ++ c ∷ []) × (sb'.capacity ≡ sb.capacity)) (sb_appendc junk sb c)
unfolding sb_appendc
sb_appendc-Holds junk sb text c h room =
    let behind : sb.capacity - length text ≡ suc (sb.capacity - length text - 1) = omega arith in
    let written : write_at sb.str sb.size c
        ≡ ok ((text ++ c ∷ []) ++ filled (sb.capacity - length (text ++ c ∷ [])) 0) =
      write_at-Holds sb text c h
      ∙ ap (λ k. write_at (text ++ filled k 0) (length text) c) behind
      ∙ write_at-filled text (sb.capacity - length text - 1) c
      ∙ ap (λ k. ok ((text ++ c ∷ []) ++ filled k 0))
          (omega (arith, length-append text (c ∷ []))) in
    rw (never_grows sb text h, written)
      (
        record {
          block = refl;
          sized = omega (arith, h.sized, length-append text (c ∷ []));
          within = omega (arith, length-append text (c ∷ []));
          some_room = h.some_room;
          small = h.small;
        },
        refl,
      )

-- On a builder whose text fills its block, `sb_appendc` does not grow it, and writes beyond the block.
pub sb_appendc-full :
    (junk : ℕ) (sb : StringBuilder) (text : Bytes) (c : ℕ)
    → Holds sb text
    → length text ≡ sb.capacity
    → sb_appendc junk sb c ≡ fault
unfolding sb_appendc
sb_appendc-full junk sb text c h full =
    let none : sb.capacity - length text ≡ 0 = omega arith in
    let over : write_at sb.str sb.size c ≡ fault =
      write_at-Holds sb text c h
      ∙ ap (λ k. write_at (text ++ filled k 0) (length text) c) none
      ∙ ap (λ bs. write_at bs (length text) c) (append-nil text)
      ∙ write_at-end text c in
    rw (never_grows sb text h, over) refl
