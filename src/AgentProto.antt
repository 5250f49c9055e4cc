-- ===== src/AgentProto.antt =====
-- internal/agentproto/io.go: the frames in which the host and the agent of a guest exchange messages,
-- a length of four bytes and then the message. A message is what json.Marshal made of it; a stream is
-- the bytes that are still to be read.
mod Framing
mod Tests
use stacyvm.Base.{
  ℕ, zero, suc, ◌+◌, ◌-◌, ◌*◌, ◌/◌, ◌%◌, ◌^◌, ◌≤◌, ◌<◌, String, ◌≡◌, refl, sym, ap, subst, ◌∙◌, ◌≢◌,
  ◌↔◌, ◌⊎◌, inl, inr, Bool, true, false, not, ◌&&◌, ◌||◌, Option, none, some, List, [], ◌∷◌, ◌++◌,
  map, arith, eq_iff, eq_refl, ltb, leb, ◌==◌, if◌then◌else◌, ltb→lt, lt→ltb, leb→le, ==_iff,
  Bool-cases, Option-cases, length, get_elem?, set, get_or, take, drop, replicate, length-append,
  length-set, take-append-drop, length-take, length-drop, append_assoc_list, drop-set, ℤ, pos,
  negsuc, pos_part, neg_part, sub_ℕ, ◌+ℤ◌, ◌≤ℤ◌, ◌<ℤ◌, ltb_ℤ, leb_ℤ, is_pos, +ℤ_parts, str_eq,
  is_empty, codes, is_space, trim_space, fold, equal_fold, equal_fold_refl, Dict, lookup, insert,
  delete, lookup-insert, lookup-delete, length-insert, length-delete, length-insert_found,
}

abbrev pub Bytes : Type 0
Bytes = List ℕ

abbrev pub max_message_size : ℕ
max_message_size = 67108864

-- `uint32(n)`.
abbrev pub uint32 : ℕ → ℕ
uint32 n = n % 4294967296

-- binary.BigEndian.PutUint32.
unfoldable pub put_uint32 : ℕ → Bytes
put_uint32 n = (n / 16777216) % 256 ∷ (n / 65536) % 256 ∷ (n / 256) % 256 ∷ n % 256 ∷ []

-- binary.BigEndian.Uint32, on four bytes.
unfoldable pub get_uint32 : Bytes → ℕ
get_uint32 (a ∷ b ∷ c ∷ d ∷ []) = a * 16777216 + b * 65536 + c * 256 + d
get_uint32 bytes = 0

-- WriteMessage to a writer that takes everything: the bytes written.
unfoldable pub write_message : Bytes → Bytes
write_message payload = put_uint32 (uint32 (length payload)) ++ payload

pub data ReadError : Type 0 where
  read_header read_payload : ReadError
  message_too_large : ℕ → ReadError

pub data Read : Type 0 where
  message : Bytes → Read
  failed : ReadError → Read

-- io.ReadFull: the next n bytes, and the rest; `none` where the stream ends before.
unfoldable pub read_full : ℕ → Bytes → Option (Bytes × Bytes)
read_full n stream = if leb n (length stream) then some (take n stream, drop n stream) else none

-- ReadMessage from the size on.
unfoldable pub read_sized : ℕ → Bytes → Read × Bytes
read_sized size stream =
    if ltb max_message_size size
    then (failed (message_too_large size), stream)
    else elim (read_full size stream) [
      | none ↦ (failed read_payload, [])
      | some (payload, rest) ↦ (message payload, rest)
    ]

unfoldable pub read_message : Bytes → Read × Bytes
read_message stream = elim (read_full 4 stream) [
  | none ↦ (failed read_header, [])
  | some (header, rest) ↦ read_sized (get_uint32 header) rest
]
