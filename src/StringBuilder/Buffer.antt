-- ===== src/StringBuilder/Buffer.antt =====
-- src/stringbuilder.c: `StringBuilder` with its block of memory, byte by byte. A byte that is read
-- or written outside the block is a fault. The bytes that `realloc` adds are `junk`, a parameter,
-- until they are written. `sb_format`, which takes a format of <stdio.h>, is not modelled.
use codecrafters_shell_c.Common.{
  ℕ, zero, suc, ◌+◌, ◌-◌, ◌*◌, ◌/◌, ◌%◌, ◌^◌, true, false, [], ◌∷◌, ◌++◌, ◌==◌, leb, if◌then◌else◌,
  length, take,
}
use codecrafters_shell_c.Common.Bytes.{Bytes}
use codecrafters_shell_c.Common.Outcome.{Outcome, ok, fault, out_of_fuel, ◌>>=◌}

pub record StringBuilder : Type 0 where
  pub capacity : ℕ
  pub size : ℕ
  pub str : Bytes

abbrev pub size_mod : ℕ
size_mod = 2 ^ 64

-- `n` bytes of the same value.
unfoldable pub filled : ℕ → ℕ → Bytes
filled zero c = []
filled (suc n) c = c ∷ filled n c

unfoldable pub sb_new_sized : ℕ → StringBuilder
unfolding filled
sb_new_sized initial_capacity =
    let capacity = if initial_capacity == 0 then 16 else initial_capacity in
    record { capacity = capacity; size = 0; str = filled capacity 0 }

unfoldable pub write_at : Bytes → ℕ → ℕ → Outcome Bytes
write_at [] i c = fault
write_at (b ∷ bs) zero c = ok (c ∷ bs)
write_at (b ∷ bs) (suc i) c = do bs' ← write_at bs i c; ok (b ∷ bs')

unfoldable pub write_all : Bytes → ℕ → Bytes → Outcome Bytes
unfolding write_at
write_all block i [] = ok block
write_all block i (c ∷ cs) = do block' ← write_at block i c; write_all block' (i + 1) cs

-- The first NUL from index `i` on.
unfoldable pub find_nul : Bytes → ℕ → ℕ → Outcome ℕ
find_nul [] i at = fault
find_nul (b ∷ bs) zero at = elim (b == 0) [ true ↦ ok at | false ↦ find_nul bs zero (at + 1) ]
find_nul (b ∷ bs) (suc i) at = find_nul bs i (at + 1)

-- `strcat(&block[i], text)`
unfoldable pub strcat : Bytes → ℕ → Bytes → Outcome Bytes
unfolding find_nul write_all
strcat block i text = do end ← find_nul block i 0; write_all block end (text ++ 0 ∷ [])

-- A block of memory resized, and cleared from index `i` on.
unfoldable pub realloc_cleared : Bytes → ℕ → ℕ → Bytes
unfolding filled
realloc_cleared block capacity i = take i block ++ filled (capacity - i) 0

-- The capacity doubled until it leaves room behind the size for more than `needed` bytes.
unfoldable pub growth_loop : ℕ → ℕ → ℕ → ℕ → Outcome ℕ
growth_loop zero capacity size needed = out_of_fuel
growth_loop (suc f) capacity size needed =
    elim (leb ((capacity + size_mod - size) % size_mod) needed) [
      | true ↦ growth_loop f (capacity * 2 % size_mod) size needed
      | false ↦ ok capacity
    ]

-- `grow` of `sb_appends` and of `sb_appendl`, with room for `needed` bytes.
unfoldable pub grown : StringBuilder → ℕ → Outcome StringBuilder
unfolding growth_loop realloc_cleared
grown sb needed = do
  capacity ←
      growth_loop 64 ((if sb.capacity == 0 then 16 else sb.capacity) * 2 % size_mod) sb.size needed
  ok (record sb { capacity = capacity; str = realloc_cleared sb.str capacity sb.size })

-- `size - 1` on `size_t`.
abbrev pub before : ℕ → ℕ
before size = (size + size_mod - 1) % size_mod

unfoldable pub sb_appends : StringBuilder → Bytes → Outcome StringBuilder
unfolding grown strcat
sb_appends sb text =
    let space_needed = length text in
    (if leb ((sb.capacity + size_mod - before sb.size) % size_mod) space_needed
      then grown sb space_needed
      else ok sb)
    >>= λ sb'. strcat sb'.str sb'.size text >>= λ block.
        ok (record sb' { str = block; size = sb'.size + space_needed })

module _ (junk : ℕ) where
  unfoldable pub sb_appendc : StringBuilder → ℕ → Outcome StringBuilder
  unfolding filled write_at
  sb_appendc sb c =
      let sb' =
        if before sb.size == sb.capacity
        then (let capacity = if sb.capacity == 0 then 16 else sb.capacity in
            record sb {
              capacity = capacity * 2 % size_mod;
              str = take (capacity * 2) (sb.str ++ filled (capacity * 2 - length sb.str) junk);
            })
        else sb in
      do block ← write_at sb'.str sb'.size c; ok (record sb' { str = block; size = sb'.size + 1 })

-- The digits of a number, the last one last. Each round takes one off; `f` rounds at most.
unfoldable pub digits_from : ℕ → ℕ → Bytes → Bytes
digits_from zero n acc = acc
digits_from (suc f) n acc = elim (leb 10 n) [
  | true ↦ digits_from f (n / 10) ((b'0' + n % 10) ∷ acc)
  | false ↦ (b'0' + n) ∷ acc
]

unfoldable pub digits : ℕ → Bytes
unfolding digits_from
digits n = digits_from (suc n) n []

-- `sb_appendl` of a number that is not negative. `log10` of 0 is not finite, and has no value as
-- a `size_t`: a fault. `snprintf` is given one byte less than there are behind the size.
unfoldable pub sb_appendl : StringBuilder → ℕ → Outcome StringBuilder
unfolding grown digits write_all
sb_appendl sb l =
    let long_digits = length (digits l) in
    if l == 0
    then fault
    else (if leb sb.capacity ((long_digits + before sb.size) % size_mod)
        then grown sb long_digits
        else ok sb)
      >>= λ sb'.
          (let n = (sb'.capacity + size_mod + size_mod - sb'.size - 1) % size_mod in
            elim n [
              | zero ↦ ok sb'.str
              | suc room ↦ write_all sb'.str sb'.size (take room (digits l) ++ 0 ∷ [])
            ])
          >>= λ block. ok (record sb' { str = block; size = sb'.size + long_digits })

-- The text that a block holds, read as a string.
unfoldable pub c_text : Bytes → Outcome Bytes
c_text [] = fault
c_text (b ∷ bs) = elim (b == 0) [ true ↦ ok [] | false ↦ do text ← c_text bs; ok (b ∷ text) ]

-- The block that was built, and the builder with a new one.
unfoldable pub sb_takestring : StringBuilder → Bytes × StringBuilder
unfolding filled
sb_takestring sb = (sb.str, record sb { size = 0; str = filled sb.capacity 0 })
