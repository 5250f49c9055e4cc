-- ===== src/Providers/RingBuffer/Tests.antt =====
-- Runs of the ring buffer, and the theorems about it at concrete inputs.
use stacyvm.Base.{◌≡◌, refl, List, [], ◌∷◌, codes}
use stacyvm.Providers.RingBuffer.{
  Bytes, RingBuffer, new_ring_buffer, split_lines, last_part, init_parts, write, lines_of, skipped,
  add_lines, add_line,
}
use stacyvm.Providers.RingBuffer.Stream.{
  write_many, concat, keep_last, visible, write-append, write_many-window, lines_of-visible,
}

abbrev small : RingBuffer
small = record { lines = codes "a" ∷ codes "b" ∷ []; max_lines = 2; partial = codes "c" }

abbrev chunks : List Bytes
chunks = (104 ∷ 105 ∷ 10 ∷ 111 ∷ []) ∷ (107 ∷ 10 ∷ 46 ∷ []) ∷ []

write_test : (write (100 ∷ 10 ∷ 101 ∷ []) small).lines ≡ codes "b" ∷ codes "cd" ∷ []
unfolding write split_lines init_parts last_part add_lines add_line
write_test = refl

lines_of_test : lines_of 2 small ≡ codes "b" ∷ codes "c" ∷ []
unfolding lines_of skipped
lines_of_test = refl

write-append_example : write (10 ∷ []) (write (100 ∷ []) small) ≡ write (100 ∷ 10 ∷ []) small
write-append_example = write-append (100 ∷ []) (10 ∷ []) small

write_many-window_example :
    let rb = write_many chunks (new_ring_buffer 1) in
    let parts = split_lines (concat chunks) in
    (rb.lines ≡ keep_last (new_ring_buffer 1).max_lines (init_parts parts))
    × (rb.partial ≡ last_part parts)
write_many-window_example = write_many-window 1 chunks

lines_of-visible_instance : lines_of 2 small ≡ keep_last 2 (visible small)
lines_of-visible_instance = lines_of-visible 2 small
