-- ===== src/Completion/FirstWord.antt =====
-- src/completion.c: `first_word_generator`, the built-in commands and then the programs of PATH.
use codecrafters_shell_c.Common.{
  elim_true, elim_false, inr, inl, ℕ, zero, suc, ◌<◌, ◌≡◌, refl, sym, subst, ◌∙◌, ap, Bool, true,
  false, ◌==◌, List, [], ◌∷◌, ◌++◌, Option, none, some, length, drop, tail, drop-suc, length-drop,
  get_elem?-drop, if◌then◌else◌, Bool-cases, arith,
}
use codecrafters_shell_c.Common.Bytes.{Bytes}
use codecrafters_shell_c.Common.Outcome.{Outcome, ok, ◌>>=◌, Ends, Ends-ok}
use codecrafters_shell_c.Builtins.Table.{BuiltinCmd, builtins}
use codecrafters_shell_c.Completion.Words.{generator_loop, builtin_generator}
use codecrafters_shell_c.Completion.Paths.{
  strn_eq-begins_with, begins_with, PathWalk, path_generator, strtok_from, programs,
}
use codecrafters_shell_c.Completion.Offers.{Calls, path_generator-Calls}

-- The static variables of the three generators.
pub record FirstWord : Type 0 where
  pub phase : ℕ
  pub list_index : ℕ
  pub walk : PathWalk

module _ (opendir : Bytes → Option (List Bytes)) (is_program : Bytes → Bool) (path : Option Bytes)
    (text : Bytes) where
  -- The generator behind the built-in commands.
  unfoldable pub in_path : ℕ → FirstWord → Option Bytes × FirstWord
  in_path state s =
      let (entry, walk') = path_generator opendir is_program path text state s.walk in
      (entry, record s { walk = walk' })

  unfoldable pub first_word_generator : ℕ → FirstWord → Outcome (Option Bytes × FirstWord)
  unfolding in_path
  first_word_generator state s =
      let phase' = if state == 0 then 0 else s.phase in
      elim (phase' == 0) [
        | true ↦ builtin_generator text state s.list_index >>= λ (entry, list_index'). elim entry [
          | some name ↦ ok (some name, record s { phase = 0; list_index = list_index' })
          | none ↦ ok (in_path 0 (record s { phase = 1; list_index = list_index' }))
        ]
        | false ↦ ok (in_path state (record s { phase = phase' }))
      ]

-- Independently of the generator: the built-in commands but for the last that begin with the text.
unfoldable pub commands_in : Bytes → List BuiltinCmd → List Bytes
unfolding begins_with
commands_in text [] = []
commands_in text (b ∷ []) = []
commands_in text (b ∷ c ∷ bs) =
    let rest = commands_in text (c ∷ bs) in if begins_with text b.name then b.name ∷ rest else rest

module _ (text : Bytes) where
  -- The result of a search that has these commands before it.
  abbrev Offered : List Bytes → Option Bytes × ℕ → Type 0
  Offered [] r = r.0 ≡ none
  Offered (m ∷ ms) r =
      (r.0 ≡ some m)
      × (b : BuiltinCmd) × (bs : List BuiltinCmd) × (drop r.1 builtins ≡ b ∷ bs)
      × (commands_in text (b ∷ bs) ≡ ms)

  generator_loop-Offered :
      (f i : ℕ) (b : BuiltinCmd) (bs : List BuiltinCmd)
      → drop i builtins ≡ b ∷ bs
      → length bs < f
      → Ends (Offered (commands_in text (b ∷ bs))) (generator_loop f i text)
  unfolding generator_loop commands_in
  generator_loop-Offered zero i b bs e fuel = omega arith
  generator_loop-Offered (suc f) i b [] e fuel =
      let last : (suc i == length builtins) ≡ true =
        ground (arith, ap length e, length-drop i builtins) in
      rw (Ends, generator_loop, get_elem?-drop i builtins [] b e, last) refl
  generator_loop-Offered (suc f) i b (c ∷ cs) e fuel =
      let more : (suc i == length builtins) ≡ false =
        ground (arith, ap length e, length-drop i builtins) in
      let next : drop (suc i) builtins ≡ c ∷ cs = drop-suc i builtins ∙ ap tail e in
      let same = strn_eq-begins_with text b.name in
      elim (Bool-cases (begins_with text b.name)) [
        | inl hit ↦
            let here : commands_in text (b ∷ c ∷ cs) ≡ b.name ∷ commands_in text (c ∷ cs) =
              rw (commands_in, hit) refl in
            subst (λ xs. Ends (Offered xs) (generator_loop (suc f) i text)) (sym here)
              (rw (Ends, generator_loop, get_elem?-drop i builtins (c ∷ cs) b e, more, same, hit)
                (refl, c, cs, next, refl))
        | inr miss ↦
            let here : commands_in text (b ∷ c ∷ cs) ≡ commands_in text (c ∷ cs) =
              rw (commands_in, miss) refl in
            subst (λ xs. Ends (Offered xs) (generator_loop (suc f) i text)) (sym here)
              (rw (Ends, generator_loop, get_elem?-drop i builtins (c ∷ cs) b e, more, same, miss)
                (generator_loop-Offered f (suc i) c cs next (omega arith)))
      ]

module _ (opendir : Bytes → Option (List Bytes)) (is_program : Bytes → Bool)
    (path text : Bytes) where
  abbrev generate : ℕ → FirstWord → Outcome (Option Bytes × FirstWord)
  generate = first_word_generator opendir is_program (some path) text

  abbrev walked : ℕ → FirstWord → Option Bytes × FirstWord
  walked = in_path opendir is_program (some path) text

  -- A call that has this result, and the calls behind it.
  abbrev Next : Option Bytes × FirstWord → List Bytes → Type 0
  Next r [] = r.0 ≡ none
  Next r (m ∷ ms) = (r.0 ≡ some m) × Calls generate 1 r.1 ms

  Calls-of_Next :
      (state : ℕ) (s : FirstWord) (r : Option Bytes × FirstWord) (ms : List Bytes)
      → generate state s ≡ ok r
      → Next r ms
      → Calls generate state s ms
  Calls-of_Next state s r [] e h = rw e h
  Calls-of_Next state s r (m ∷ ms) e h = rw e h

  past_commands : (s : FirstWord) → s.phase ≡ 1 → generate 1 s ≡ ok (walked 1 s)
  unfolding first_word_generator
  past_commands s e =
      let on : (s.phase == 0) ≡ false = ground arith in elim_false (s.phase == 0) _ _ on

  -- Behind the built-in commands the calls are those of `path_generator`.
  in_path-Calls :
      (s : FirstWord) (ms : List Bytes)
      → s.phase ≡ 1
      → Calls (λ st t. ok (path_generator opendir is_program (some path) text st t)) 1 s.walk ms
      → Calls generate 1 s ms
  unfolding in_path
  in_path-Calls s [] e h = Calls-of_Next 1 s (walked 1 s) [] (past_commands s e) h
  in_path-Calls s (m ∷ ms) e h =
      Calls-of_Next 1 s (walked 1 s) (m ∷ ms) (past_commands s e)
        (h.0, in_path-Calls (walked 1 s).1 ms e h.1)

  start_path-Next :
      (s : FirstWord) (ms : List Bytes)
      → s.phase ≡ 1
      → Calls (λ st t. ok (path_generator opendir is_program (some path) text st t)) 0 s.walk ms
      → Next (walked 0 s) ms
  unfolding in_path
  start_path-Next s [] e h = h
  start_path-Next s (m ∷ ms) e h = (h.0, in_path-Calls (walked 0 s).1 ms e h.1)

  -- Each call in the first phase.
  in_commands :
      (state : ℕ) (s : FirstWord) (i : ℕ) (entry : Option Bytes)
      → (if state == 0 then 0 else s.phase) ≡ 0
      → builtin_generator text state s.list_index ≡ ok (entry, i)
      → generate state s
        ≡ ok (elim entry [
          | some name ↦ (some name, record s { phase = 0; list_index = i })
          | none ↦ walked 0 (record s { phase = 1; list_index = i })
        ])
  unfolding first_word_generator
  in_commands state s i none e run =
      let first : ((if state == 0 then 0 else s.phase) == 0) ≡ true = rw e refl in
      elim_true ((if state == 0 then 0 else s.phase) == 0) _ _ first ∙ rw run refl
  in_commands state s i (some name) e run =
      let first : ((if state == 0 then 0 else s.phase) == 0) ≡ true = rw e refl in
      elim_true ((if state == 0 then 0 else s.phase) == 0) _ _ first ∙ rw run refl

  abbrev found : List Bytes
  found = programs opendir is_program text (strtok_from path [])

  commands-Calls :
      (cs : List Bytes) (state : ℕ) (s : FirstWord)
      → (if state == 0 then 0 else s.phase) ≡ 0
      → Ends (Offered text cs) (builtin_generator text state s.list_index)
      → Calls generate state s (cs ++ found)
  unfolding builtin_generator
  commands-Calls [] state s e h =
      let ((entry, i), run, none_left) = Ends-ok (builtin_generator text state s.list_index) h in
      let s' : FirstWord = record s { phase = 1; list_index = i } in
      Calls-of_Next state s (walked 0 s') found
        (in_commands state s i none e (run ∙ ap (λ x. ok (x, i)) none_left))
        (start_path-Next s' found refl (path_generator-Calls opendir is_program text path s.walk))
  commands-Calls (m ∷ ms) state s e h =
      let ((entry, i), run, offered) = Ends-ok (builtin_generator text state s.list_index) h in
      let (hit, b, bs, here, left) = offered in
      let s' : FirstWord = record s { phase = 0; list_index = i } in
      Calls-of_Next state s (some m, s') (m ∷ (ms ++ found))
        (in_commands state s i (some m) e (run ∙ ap (λ x. ok (x, i)) hit))
        (
          refl,
          commands-Calls ms 1 s' refl (
              subst (λ xs. Ends (Offered text xs) (builtin_generator text 1 i)) left
                (generator_loop-Offered text (length builtins) i b bs here
                  (omega (arith, ap length here, length-drop i builtins)))),
        )

  -- Whatever state an earlier completion left, where PATH is set the calls of
  -- `first_word_generator` for a text give the built-in commands but for the last that begin with it,
  -- then the programs of the directories of PATH that do, in their order, and then a null pointer.
  pub first_word_generator-Calls :
      (s : FirstWord)
      → Calls
          (first_word_generator opendir is_program (some path) text)
          0
          s
          (commands_in text builtins ++ programs opendir is_program text (strtok_from path []))
  unfolding builtin_generator
  first_word_generator-Calls s =
      commands-Calls (commands_in text builtins) 0 s refl
        (generator_loop-Offered text (length builtins) 0 _ _ refl (omega arith))
