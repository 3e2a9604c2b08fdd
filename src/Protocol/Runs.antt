-- ===== src/Protocol/Runs.antt =====
-- Tests of the messages on a socket that moves two bytes a read and three a write, and the theorems
-- at concrete streams.
use jpgsync.Common.{◌≡◌, refl, true, false, [], ◌∷◌}
use jpgsync.Host.{little_endian, network32}
use jpgsync.Protocol.{
  returned, read_fully, read_loop, read_exactly, write_exactly, read_file_size, write_file_size,
}
use jpgsync.Protocol.Stream.{ReadFully, read_fully_lem}
use jpgsync.Protocol.Writing.{WriteFully, write_fully_lem}
use jpgsync.Protocol.Messages.{Gives, read_exactly_lem, write_exactly_lem, file_size_arrives}
use jpgsync.Protocol.Choppy.{Wire, choppy, choppy_stream}

abbrev wire : Wire
wire = record { input = 0 ∷ 0 ∷ 2 ∷ 1 ∷ 7 ∷ []; output = [] }

read_fully-five :
    read_fully choppy wire 5 ≡ returned (0 ∷ 0 ∷ 2 ∷ 1 ∷ 7 ∷ [], record wire { input = [] })
unfolding read_fully read_loop
read_fully-five = refl

-- The stream ends before the sixth byte.
read_exactly-six :
    read_exactly choppy wire 6
    ≡ returned (false, 0 ∷ 0 ∷ 2 ∷ 1 ∷ 7 ∷ [], record wire { input = [] })
unfolding read_exactly read_fully read_loop
read_exactly-six = refl

read_fully_lem_example : ReadFully choppy_stream wire 4
read_fully_lem_example = read_fully_lem choppy_stream wire 4

write_fully_lem_example : WriteFully choppy_stream wire (9 ∷ 8 ∷ 7 ∷ 6 ∷ [])
write_fully_lem_example = write_fully_lem choppy_stream wire (9 ∷ 8 ∷ 7 ∷ 6 ∷ [])

read_exactly_lem_example :
    Gives choppy_stream
      (read_exactly choppy wire 4)
      (λ fd'. (true, 0 ∷ 0 ∷ 2 ∷ 1 ∷ [], fd'))
      (7 ∷ [])
      []
unfolding choppy_stream
read_exactly_lem_example = read_exactly_lem choppy_stream wire (0 ∷ 0 ∷ 2 ∷ 1 ∷ []) (7 ∷ []) refl

write_exactly_lem_example :
    Gives choppy_stream
      (write_exactly choppy wire (9 ∷ 8 ∷ 7 ∷ 6 ∷ []))
      (λ fd'. (true, fd'))
      (0 ∷ 0 ∷ 2 ∷ 1 ∷ 7 ∷ [])
      (9 ∷ 8 ∷ 7 ∷ 6 ∷ [])
unfolding choppy_stream
write_exactly_lem_example = write_exactly_lem choppy_stream wire (9 ∷ 8 ∷ 7 ∷ 6 ∷ [])

file_size_arrives_example :
    Gives choppy_stream
      (write_file_size choppy little_endian wire 513)
      (λ a'. (true, a'))
      (0 ∷ 0 ∷ 2 ∷ 1 ∷ 7 ∷ [])
      (0 ∷ 0 ∷ 2 ∷ 1 ∷ [])
    × Gives choppy_stream
        (read_file_size choppy little_endian wire)
        (λ b'. (true, 513, b'))
        (7 ∷ [])
        []
unfolding choppy_stream network32
file_size_arrives_example =
    file_size_arrives choppy_stream little_endian wire wire 513 (7 ∷ []) refl
