-- ===== src/Path/Words.antt =====
-- src/wordlist.c: the counted list of words. A chain of `Word` nodes is the list of its texts.
use codecrafters_shell_c.Common.{
  ℕ, ◌+◌, ◌≡◌, refl, List, [], ◌∷◌, ◌++◌, length, append_assoc, append-nil, arith,
}
use codecrafters_shell_c.Common.Bytes.{Bytes}

pub record WordList : Type 0 where
  pub size : ℕ
  pub words : List Bytes

unfoldable pub wordlist_new_empty : WordList
wordlist_new_empty = record { size = 0; words = [] }

unfoldable pub wordlist_append_word : WordList → Bytes → WordList
wordlist_append_word list node = record { size = list.size + 1; words = list.words ++ node ∷ [] }

unfoldable pub wordlist_append : WordList → Bytes → WordList
unfolding wordlist_append_word
wordlist_append list word = wordlist_append_word list word

unfoldable pub wordlist_new : Bytes → WordList
unfolding wordlist_append wordlist_new_empty
wordlist_new text = wordlist_append wordlist_new_empty text

unfoldable pub count_words : List Bytes → ℕ
count_words [] = 0
count_words (w ∷ ws) = count_words ws + 1

unfoldable pub wordlist_count : WordList → ℕ
unfolding count_words
wordlist_count list = count_words list.words

unfoldable pub wordlist_from_words : List Bytes → WordList
unfolding count_words
wordlist_from_words head = record { size = count_words head; words = head }

unfoldable pub copy_words : List Bytes → WordList → WordList
unfolding wordlist_append_word
copy_words [] copy = copy
copy_words (w ∷ ws) copy = copy_words ws (wordlist_append_word copy w)

unfoldable pub wordlist_copyof : WordList → WordList
unfolding copy_words wordlist_new_empty
wordlist_copyof list = copy_words list.words wordlist_new_empty

pub copy_words-eq :
    (ws : List Bytes) (copy : WordList)
    → copy_words ws copy ≡ record { size = copy.size + length ws; words = copy.words ++ ws }
unfolding copy_words wordlist_append_word
copy_words-eq [] copy = rw (append-nil copy.words) (ground arith)
copy_words-eq (w ∷ ws) copy =
    rw (copy_words-eq ws (wordlist_append_word copy w), append_assoc copy.words (w ∷ []) ws)
      (ground arith)

count_words-length : (ws : List Bytes) → count_words ws ≡ length ws
unfolding count_words
count_words-length [] = refl
count_words-length (w ∷ ws) = omega (arith, count_words-length ws)

-- The copy of a word list has its words in order, and its size is their number, whatever the size
-- that was stored: it is the list that `wordlist_from_words` makes of the same words.
pub wordlist_copyof-wordlist_from_words :
    (list : WordList) → wordlist_copyof list ≡ wordlist_from_words list.words
unfolding wordlist_copyof wordlist_from_words wordlist_new_empty
wordlist_copyof-wordlist_from_words list =
    rw (copy_words-eq list.words wordlist_new_empty, count_words-length list.words) (ground arith)
