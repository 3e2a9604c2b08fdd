-- ===== src/Launcher/Words.antt =====
-- The words that `iss >> *master_port` reads of a line (src/jpgsync.cpp).
use jpgsync.Common.{
  ℕ, ◌<◌, ◌≡◌, ap, ◌∙◌, true, false, List, [], ◌∷◌, ◌++◌, append_assoc, append-nil, arith, All,
  length,
}
use jpgsync.Launcher.Capture.{is_space, words_from}

abbrev pub Word : List ℕ → Type 0
Word xs = All (λ x. is_space x ≡ false) xs

words_from-append :
    (word xs : List ℕ) (c : ℕ) (cs : List ℕ)
    → Word xs
    → 0 < length word
    → is_space c ≡ true
    → words_from word (xs ++ c ∷ cs) ≡ (word ++ xs) ∷ words_from [] cs
unfolding words_from
words_from-append [] xs c cs s lt sp = absurd (omega arith)
words_from-append (w ∷ word) [] c cs s lt sp = rw (sp, append-nil word)
words_from-append (w ∷ word) (x ∷ xs) c cs (sx, ss) lt sp = rw sx (
    words_from-append (w ∷ (word ++ x ∷ [])) xs c cs ss (omega arith) sp
    ∙ ap (λ v. (w ∷ v) ∷ words_from [] cs) (append_assoc word (x ∷ []) xs))

-- A word and the space behind it.
pub words_from-Word :
    (xs : List ℕ) (c : ℕ) (cs : List ℕ)
    → Word xs
    → 0 < length xs
    → is_space c ≡ true
    → words_from [] (xs ++ c ∷ cs) ≡ xs ∷ words_from [] cs
unfolding words_from
words_from-Word [] c cs s lt sp = absurd (omega arith)
words_from-Word (x ∷ xs) c cs (sx, ss) lt sp =
    rw sx (words_from-append (x ∷ []) xs c cs ss (omega arith) sp)
