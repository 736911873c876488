-- ===== src/Iter/Tests.antt =====
-- internal/iter.go: reads of an iterator of three chunks, the last with an error.
use gdev.Base.{ℕ, ◌≡◌, refl, none, some, List, [], ◌∷◌}
use gdev.Iter.{closed_pipe, other, Chunk, seq_reader, read, close}
use gdev.Iter.Stream.{Cuts, Pends, read-Cuts}

abbrev chunks : List Chunk
chunks = (1 ∷ 2 ∷ 3 ∷ [], none) ∷ ([], none) ∷ (4 ∷ [], some (other "reset")) ∷ []

abbrev numbers : List ℕ
numbers = 1 ∷ 2 ∷ 3 ∷ 4 ∷ []

seq_reader-Pends : Pends (seq_reader chunks) numbers (other "reset")
unfolding seq_reader
seq_reader-Pends = (chunks, refl, refl, refl)

after_close :
    (read 5 (close (seq_reader chunks))).0 ≡ record { bytes = []; failed = some closed_pipe }
unfolding read close
after_close = refl

read-Cuts_example :
    Cuts 5 [] numbers (other "reset") (read 5 (seq_reader chunks)).0 (read 5 (seq_reader chunks)).1
read-Cuts_example = read-Cuts (seq_reader chunks) numbers (other "reset") 5 seq_reader-Pends
