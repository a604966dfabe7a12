-- ===== src/Libk/Token/Tests.antt =====
-- Runs of `strtok_r`.
use os.Prelude.{ℕ, true, false, List, [], ◌∷◌, none, some, ◌≡◌, refl}
use os.Libk.Token.{strtok_r, strtok_at, strspn, accepts, strpbrk, strcspn, strchr, span_table}
use os.Libk.Token.Laws.{Cuts, strtok_r-Cuts}

-- "//ab/c"
abbrev text : List ℕ
text = 47 ∷ 47 ∷ 97 ∷ 98 ∷ 47 ∷ 99 ∷ []

strtok_r-Cuts_example : Cuts true 47 text (strtok_r true (some text) (47 ∷ []) [])
strtok_r-Cuts_example = strtok_r-Cuts true 47 text []

first_token : strtok_r false (some text) (47 ∷ []) [] ≡ some (some (97 ∷ 98 ∷ []), 99 ∷ [])
unfolding strtok_r strtok_at strspn accepts strpbrk strcspn strchr
first_token = refl

-- no delimiter follows the last token: NULL - str1 leads to address 0
last_token : strtok_r false none (47 ∷ []) (99 ∷ []) ≡ none
unfolding strtok_r strtok_at strspn accepts strpbrk strcspn strchr
last_token = refl

-- two delimiters go through the table, and their last token is found
last_of_two : strtok_r false none (47 ∷ 58 ∷ []) (99 ∷ []) ≡ some (some (99 ∷ []), [])
unfolding strtok_r strtok_at strspn accepts strpbrk strcspn strchr span_table
last_of_two = refl
