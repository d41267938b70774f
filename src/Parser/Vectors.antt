-- ===== src/Parser/Vectors.antt =====
-- src/parser.c: `ArgVector` and `RedirVec`. `room` is the number of bytes in the vector's block,
-- which a write must not leave. A pointer takes 8 bytes, a `Redirect` 16.
use codecrafters_shell_c.Common.{ℕ, ◌+◌, ◌*◌, List, [], ◌∷◌, ◌++◌, ◌==◌, leb, if◌then◌else◌}
use codecrafters_shell_c.Common.Bytes.{Bytes}
use codecrafters_shell_c.Common.Outcome.{Outcome, ok, fault, ◌>>=◌}
use codecrafters_shell_c.Syntax.{Redirect}

pub record ArgVector : Type 0 where
  pub size : ℕ
  pub capacity : ℕ
  pub room : ℕ
  pub arr : List Bytes

unfoldable pub av_new : ArgVector
av_new = record { size = 0; capacity = 16; room = 8 * 16; arr = [] }

-- `realloc(vec->arr, vec->capacity * 2)`: as many bytes as there are to be elements.
unfoldable pub av_grow : ArgVector → ArgVector
av_grow vec =
    if vec.size == vec.capacity
    then record vec { capacity = vec.capacity * 2; room = vec.capacity * 2 }
    else vec

unfoldable pub av_append : ArgVector → Bytes → Outcome ArgVector
unfolding av_grow
av_append vec arg =
    let vec' = av_grow vec in
    if leb (8 * (vec'.size + 1)) vec'.room
    then ok (record vec' { size = vec'.size + 1; arr = vec'.arr ++ arg ∷ [] })
    else fault

pub record RedirVec : Type 0 where
  pub size : ℕ
  pub capacity : ℕ
  pub room : ℕ
  pub arr : List Redirect

unfoldable pub rv_new : RedirVec
rv_new = record { size = 0; capacity = 16; room = 16 * 16; arr = [] }

-- The grown block is cleared up to its capacity in elements.
unfoldable pub rv_grow : RedirVec → Outcome RedirVec
rv_grow vec =
    if vec.size == vec.capacity
    then if leb (16 * (vec.capacity * 2)) (vec.capacity * 2)
      then ok (record vec { capacity = vec.capacity * 2; room = vec.capacity * 2 })
      else fault
    else ok vec

unfoldable pub rv_append : RedirVec → Redirect → Outcome RedirVec
unfolding rv_grow
rv_append vec redirect = do
  vec' ← rv_grow vec
  if leb (16 * (vec'.size + 1)) vec'.room
      then ok (record vec' { size = vec'.size + 1; arr = vec'.arr ++ redirect ∷ [] })
      else fault
