-- ===== src/AgentProto/Tests.antt =====
-- Frames on concrete bytes.
use stacyvm.Base.{◌≡◌, refl, some, [], ◌∷◌, ◌++◌, arith, take}
use stacyvm.AgentProto.{
  put_uint32, get_uint32, write_message, ReadError, message_too_large, failed, read_full,
  read_sized, read_message,
}
use stacyvm.AgentProto.Framing.{
  write_messages, read_messages, read_messages-write_messages, read_message_truncated,
}

frame_of_three : write_message (7 ∷ 8 ∷ 9 ∷ []) ≡ 0 ∷ 0 ∷ 0 ∷ 3 ∷ 7 ∷ 8 ∷ 9 ∷ []
unfolding write_message put_uint32
frame_of_three = refl

too_large_refused : (read_message (255 ∷ 0 ∷ 0 ∷ 0 ∷ [])).0 ≡ failed (message_too_large 4278190080)
unfolding read_message read_full read_sized get_uint32
too_large_refused = refl

read_messages-write_messages_example :
    read_messages 2 (write_messages ((7 ∷ []) ∷ (8 ∷ 9 ∷ []) ∷ []) ++ 1 ∷ [])
    ≡ some ((7 ∷ []) ∷ (8 ∷ 9 ∷ []) ∷ [], 1 ∷ [])
read_messages-write_messages_example =
    read_messages-write_messages ((7 ∷ []) ∷ (8 ∷ 9 ∷ []) ∷ []) (1 ∷ [])
      (omega arith, (omega arith, tt))

read_message_truncated_instance :
    (e : ReadError) × ((read_message (take 5 (write_message (7 ∷ 8 ∷ [])))).0 ≡ failed e)
unfolding write_message put_uint32
read_message_truncated_instance = read_message_truncated (7 ∷ 8 ∷ []) 5 (omega arith) (omega arith)
