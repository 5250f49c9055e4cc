-- ===== src/Providers/RingBuffer.antt =====
-- internal/providers/ringbuf.go: the console log of a sandbox, its last lines. Text is a list of
-- bytes. Each method runs under the buffer's mutex, so it is one step.
mod Laws
mod Stream
mod Tests
use stacyvm.Base.{
  ℕ, ◌+◌, ◌-◌, Bool, not, ◌&&◌, ◌||◌, List, [], ◌∷◌, ◌++◌, ltb, leb, ◌==◌, if◌then◌else◌, length,
  set,
}

abbrev pub Bytes : Type 0
Bytes = List ℕ

abbrev pub newline : ℕ
newline = 10

pub record RingBuffer : Type 0 where
  pub lines : List Bytes
  pub max_lines : ℕ
  pub partial : Bytes

-- A request of 0 stands for `maxLines <= 0`.
pub new_ring_buffer : ℕ → RingBuffer
new_ring_buffer max_lines = record {
  lines = [];
  max_lines = if max_lines == 0 then 1000 else max_lines;
  partial = [];
}

-- strings.Split(text, "\n"): never empty.
pub glue : ℕ → List Bytes → List Bytes
glue c [] = (c ∷ []) ∷ []
glue c (part ∷ parts) = (c ∷ part) ∷ parts

pub split_lines : Bytes → List Bytes
unfolding glue
split_lines [] = [] ∷ []
split_lines (c ∷ text) =
    let rest = split_lines text in if c == newline then [] ∷ rest else glue c rest

-- parts[len(parts)-1] and parts[:len(parts)-1].
pub last_part : List Bytes → Bytes
last_part [] = []
last_part (part ∷ []) = part
last_part (part ∷ next ∷ parts) = last_part (next ∷ parts)

pub init_parts : List Bytes → List Bytes
init_parts [] = []
init_parts (part ∷ []) = []
init_parts (part ∷ next ∷ parts) = part ∷ init_parts (next ∷ parts)

-- copy(lines, lines[1:]): the last entry stays where it is.
pub copy_left : List Bytes → List Bytes
copy_left [] = []
copy_left (line ∷ []) = line ∷ []
copy_left (line ∷ next ∷ rest) = next ∷ copy_left (next ∷ rest)

pub add_line : ℕ → List Bytes → Bytes → List Bytes
unfolding copy_left
add_line max_lines lines line =
    if leb max_lines (length lines)
    then set (copy_left lines) (length lines - 1) line
    else lines ++ line ∷ []

pub add_lines : ℕ → List Bytes → List Bytes → List Bytes
add_lines max_lines lines [] = lines
add_lines max_lines lines (line ∷ rest) = add_lines max_lines (add_line max_lines lines line) rest

pub write : Bytes → RingBuffer → RingBuffer
write p rb =
    let parts = split_lines (rb.partial ++ p) in
    record rb {
      partial = last_part parts;
      lines = add_lines rb.max_lines rb.lines (init_parts parts);
    }

-- The loop of `Lines`: what stands at index `skip` or later, from index `i` on.
pub from_index : ℕ → ℕ → List Bytes → List Bytes
from_index skip i [] = []
from_index skip i (line ∷ rest) =
    let kept = from_index skip (i + 1) rest in if leb skip i then line ∷ kept else kept

pub has_partial : RingBuffer → Bool
has_partial rb = not (leb (length rb.partial) 0)

-- The number of lines that `Lines(n)` leaves out at the front of `total` ones.
-- A request of 0 stands for `n <= 0`.
pub skipped : ℕ → ℕ → ℕ
skipped n total = total - (if n == 0 || ltb total n then total else n)

pub lines_of : ℕ → RingBuffer → List Bytes
unfolding from_index has_partial
lines_of request rb =
    let total = if has_partial rb then length rb.lines + 1 else length rb.lines in
    let skip = skipped request total in
    let result = from_index skip 0 rb.lines in
    if has_partial rb && ltb skip total then result ++ rb.partial ∷ [] else result
