-- ===== src/AgentProto/Framing.antt =====
-- Frames are read as they were written (agentproto/io.go).
use stacyvm.Base.{
  ℕ, suc, ◌≤◌, ◌<◌, ◌≡◌, refl, ap, ◌∙◌, true, false, Option, none, some, List, [], ◌∷◌, ◌++◌, arith,
  ltb, leb, length, take, drop, length-append, length-take, append_assoc_list,
}
use stacyvm.AgentProto.{
  Bytes, max_message_size, uint32, put_uint32, get_uint32, write_message, ReadError, read_header,
  read_payload, message, failed, read_full, read_sized, read_message,
}

get_uint32-put_uint32 : (n : ℕ) → n < 4294967296 → get_uint32 (put_uint32 n) ≡ n
unfolding get_uint32 put_uint32
get_uint32-put_uint32 n small = omega arith

take_whole : (xs ys : Bytes) → take (length xs) (xs ++ ys) ≡ xs
take_whole [] ys = refl
take_whole (x ∷ xs) ys = ap (λ zs. x ∷ zs) (take_whole xs ys)

drop_whole : (xs ys : Bytes) → drop (length xs) (xs ++ ys) ≡ ys
drop_whole [] ys = refl
drop_whole (x ∷ xs) ys = drop_whole xs ys

length-prefix : (xs ys : Bytes) → leb (length xs) (length (xs ++ ys)) ≡ true
length-prefix xs ys = ground (arith, length-append xs ys)

read_full-append : (xs ys : Bytes) → read_full (length xs) (xs ++ ys) ≡ some (xs, ys)
unfolding read_full
read_full-append xs ys = rw (length-prefix, take_whole, drop_whole) refl

read_header-append :
    (n : ℕ) (ys : Bytes) → read_full 4 (put_uint32 n ++ ys) ≡ some (put_uint32 n, ys)
unfolding put_uint32
read_header-append n ys = read_full-append (put_uint32 n) ys

uint32_small : (n : ℕ) → n ≤ max_message_size → uint32 n ≡ n
uint32_small n fits = omega arith

read_sized-append :
    (payload rest : Bytes)
    → length payload ≤ max_message_size
    → read_sized (length payload) (payload ++ rest) ≡ (message payload, rest)
unfolding read_sized
read_sized-append payload rest fits =
    let within : ltb max_message_size (length payload) ≡ false = ground arith in
    rw (within, read_full-append) refl

-- The reader's view of a frame: its header is read, and then its payload by its size.
read_message-frame :
    (payload stream : Bytes)
    → length payload ≤ max_message_size
    → read_message (put_uint32 (uint32 (length payload)) ++ stream)
      ≡ read_sized (length payload) stream
unfolding read_message read_sized
read_message-frame payload stream fits =
    let size : get_uint32 (put_uint32 (length payload)) ≡ length payload =
      get_uint32-put_uint32 (length payload) (omega arith) in
    rw (uint32_small (length payload) fits, read_message, read_header-append, size) refl

-- A message that is written and is within the limit is read back, whatever follows it on the stream,
-- and what follows is left to be read.
pub read_message-write_message :
    (payload rest : Bytes)
    → length payload ≤ max_message_size
    → read_message (write_message payload ++ rest) ≡ (message payload, rest)
unfolding write_message
read_message-write_message payload rest fits =
    rw (append_assoc_list, read_message-frame payload (payload ++ rest) fits)
      (read_sized-append payload rest fits)

pub write_messages : List Bytes → Bytes
write_messages [] = []
write_messages (m ∷ ms) = write_message m ++ write_messages ms

-- Reading as many messages as asked for, or up to the first failure.
pub read_messages : ℕ → Bytes → Option (List Bytes × Bytes)
read_messages ℕ.zero stream = some ([], stream)
read_messages (suc n) stream =
    let rest = read_messages n (read_message stream).1 in
    elim (read_message stream).0 [
      | failed e ↦ none
      | message m ↦ elim rest [ none ↦ none | some (ms, left) ↦ some (m ∷ ms, left) ]
    ]

read_messages-suc :
    (n : ℕ) (stream rest m : Bytes)
    → read_message stream ≡ (message m, rest)
    → read_messages (suc n) stream
      ≡ (elim (read_messages n rest) [ none ↦ none | some (ms, left) ↦ some (m ∷ ms, left) ])
unfolding read_messages
read_messages-suc n stream rest m e =
    let first : (read_message stream).0 ≡ message m = ap (λ r. r.0) e in
    let after : (read_message stream).1 ≡ rest = ap (λ r. r.1) e in
    rw (read_messages, first, after) refl

abbrev pub AllFit : List Bytes → Type 0
AllFit [] = Unit
AllFit (m ∷ ms) = (length m ≤ max_message_size) × AllFit ms

-- Messages that are written one after the other, each within the limit, are read back in order.
pub read_messages-write_messages :
    (ms : List Bytes) (rest : Bytes)
    → AllFit ms
    → read_messages (length ms) (write_messages ms ++ rest) ≡ some (ms, rest)
unfolding read_messages write_messages
read_messages-write_messages [] rest fit = refl
read_messages-write_messages (m ∷ ms) rest (fits, fit) =
    let first = read_message-write_message m (write_messages ms ++ rest) fits in
    rw (append_assoc_list) (
      read_messages-suc (length ms) _ _ m first
      ∙ rw (read_messages-write_messages ms rest fit) refl)

read_sized_short :
    (payload : Bytes) (j : ℕ)
    → length payload ≤ max_message_size
    → j < length payload
    → (read_sized (length payload) (take j payload)).0 ≡ failed read_payload
unfolding read_sized read_full
read_sized_short payload j fits short =
    let within : ltb max_message_size (length payload) ≡ false = ground arith in
    let cut : leb (length payload) (length (take j payload)) ≡ false =
      ground (arith, length-take j payload) in
    rw (within, cut) refl

-- No message is read from a frame that is cut short.
pub read_message_truncated :
    (payload : Bytes) (k : ℕ)
    → length payload ≤ max_message_size
    → k < length (write_message payload)
    → (e : ReadError) × ((read_message (take k (write_message payload))).0 ≡ failed e)
unfolding write_message put_uint32 read_message read_full
read_message_truncated payload ℕ.zero fits short = (read_header, refl)
read_message_truncated payload (suc ℕ.zero) fits short = (read_header, refl)
read_message_truncated payload (suc (suc ℕ.zero)) fits short = (read_header, refl)
read_message_truncated payload (suc (suc (suc ℕ.zero))) fits short = (read_header, refl)
read_message_truncated payload (suc (suc (suc (suc j)))) fits short = (
  read_payload,
  ap (λ r. r.0) (read_message-frame payload (take j payload) fits)
      ∙ read_sized_short payload j fits (omega arith),
)
