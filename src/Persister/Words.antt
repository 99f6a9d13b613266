-- ===== src/Persister/Words.antt =====
-- What `stream >> word` takes from a text.
use kvstorage_base_raft_cpp.Base.{ℕ, ◌≡◌, refl, true, false, [], ◌∷◌, ◌++◌, Bytes}
use kvstorage_base_raft_cpp.Persister.{is_space, take_word, read_word}

-- A text with no white space.
abbrev pub IsWord : Bytes → Type 0
IsWord [] = Unit {0}
IsWord (c ∷ cs) = (is_space c ≡ false) × IsWord cs

take_word-append :
    (w : Bytes) (c : ℕ) (rest : Bytes)
    → IsWord w
    → is_space c ≡ true
    → take_word (w ++ c ∷ rest) ≡ w
unfolding take_word
take_word-append [] c rest h e = rw e
take_word-append (x ∷ w) c rest h e = rw (h.0, take_word-append w c rest h.1 e)

take_word-IsWord : (w : Bytes) → IsWord w → take_word w ≡ w
unfolding take_word
take_word-IsWord [] h = refl
take_word-IsWord (x ∷ w) h = rw (h.0, take_word-IsWord w h.1)

pub read_word-IsWord : (w : Bytes) → IsWord w → read_word w ≡ w
unfolding read_word
read_word-IsWord [] h = refl
read_word-IsWord (x ∷ w) h = rw (h.0) (take_word-IsWord (x ∷ w) h)

-- Of a text that begins with a word and a space, the word alone is read.
pub read_word-append :
    (x : ℕ) (w : Bytes) (c : ℕ) (rest : Bytes)
    → IsWord (x ∷ w)
    → is_space c ≡ true
    → read_word (x ∷ w ++ c ∷ rest) ≡ x ∷ w
unfolding read_word
read_word-append x w c rest h e = rw (h.0) (take_word-append (x ∷ w) c rest h e)
