-- ===== src/Rows/Instance.antt =====
-- Row instances of src/table_rows.c: their dotted decimal text, their cell keys and their order.
-- A table_instance_t is the list of its first `len` sub-identifiers.
pub mod Decimal
pub mod Format
pub mod Parse
pub mod Canonical
pub mod Order
use Prim.Native.Nat.{Ordering}
use agentx_subagent.Prelude.{
  ℕ, zero, suc, ◌+◌, ◌-◌, ◌*◌, ◌/◌, ◌%◌, ◌^◌, Bool, not, ◌&&◌, ◌||◌, Option, none, some, List, [],
  ◌∷◌, ◌++◌, Bytes, length, ltb, leb, ◌==◌, if◌then◌else◌,
}
use agentx_subagent.Storage.Types.{StorageRc, err_inval, err_toobig, key_max}
use agentx_subagent.Storage.Codec.{Res, got, fail, ◌>>=◌}

abbrev pub TableInstance : Type 0
TableInstance = List ℕ

-- TABLE_ROW_SUBID_MAX
abbrev pub subid_max : ℕ
subid_max = 128

-- printf's %lu, on at most `f` digits.
unfoldable pub digits : ℕ → ℕ → Bytes
digits zero n = []
digits (suc f) n =
    let front = digits f (n / 10) in
    if n / 10 == 0 then (b'0' + n % 10) ∷ [] else front ++ ((b'0' + n % 10) ∷ [])

-- An unsigned long has at most 20 decimal digits.
unfoldable pub decimal : ℕ → Bytes
decimal n = digits 20 n

-- The loop of table_instance_format, with the text written so far; `sep` is "" on the first round
-- and "." on the others. snprintf wants room for the terminator too.
unfoldable pub format_loop : Bytes → TableInstance → Bytes → ℕ → Res Bytes
format_loop sep [] out buflen = got out
format_loop sep (v ∷ vs) out buflen =
    let piece = sep ++ decimal v in
    if leb (buflen - length out) (length piece)
    then fail err_toobig
    else format_loop (b'.' ∷ []) vs (out ++ piece) buflen

-- The text that the buffer holds on success. `buf` says whether the buffer is not NULL.
unfoldable pub table_instance_format : Option TableInstance → (buf : Bool) → ℕ → Res Bytes
table_instance_format none buf buflen = fail err_inval
table_instance_format (some inst) buf buflen =
    if not buf || buflen == 0
    then fail err_inval
    else if length inst == 0 || ltb subid_max (length inst)
    then fail err_inval
    else format_loop [] inst [] buflen

abbrev pub is_digit : ℕ → Bool
is_digit c = leb b'0' c && leb c b'9'

-- What follows the digits of a component: `digits` were read, the first of them was `lead`.
unfoldable pub close_component : ℕ → ℕ → ℕ → TableInstance → Res TableInstance
close_component value digits lead inst =
    if digits == 0
    then fail err_inval
    else if ltb 1 digits && lead == b'0'
    then fail err_inval
    else got (inst ++ (value ∷ []))

-- Both loops of table_instance_parse on the bytes from `pos` on. A digit is a round of the inner
-- loop. Any other byte ends the component: it has to be a '.', with something behind it and with
-- room for one more sub-identifier, and then the outer loop starts its next round.
unfoldable pub parse_loop : Bytes → ℕ → ℕ → ℕ → TableInstance → Res TableInstance
parse_loop [] value digits lead inst = close_component value digits lead inst
parse_loop (c ∷ cs) value digits lead inst =
    let value' = (value * 10 + (c - b'0')) % 2 ^ 64 in
    let more = parse_loop cs value' (digits + 1) (if digits == 0 then c else lead) inst in
    let ended = close_component value digits lead inst >>= (λ inst'.
      if not (c == b'.')
      then fail err_inval
      else if length cs == 0
      then fail err_inval
      else if length inst' == subid_max
      then fail err_inval
      else parse_loop cs 0 0 0 inst') in
    if is_digit c then (if ltb 0xFFFFFFFF value' then fail err_inval else more) else ended

-- `out` says whether the out pointer is not NULL.
unfoldable pub table_instance_parse : Option Bytes → (out : Bool) → Res TableInstance
table_instance_parse none out = fail err_inval
table_instance_parse (some dotted) out =
    if not out || length dotted == 0 then fail err_inval else parse_loop dotted 0 0 0 []

unfoldable pub table_cell_key : Option Bytes → Option TableInstance → (buf : Bool) → ℕ → Res Bytes
table_cell_key none inst buf buflen = fail err_inval
table_cell_key (some column) inst buf buflen =
    if not buf || length column == 0
    then fail err_inval
    else if ltb buflen (length column + 2)
    then fail err_toobig
    else do
      text ← table_instance_format inst buf (buflen - length column - 1)
      if ltb key_max (length (column ++ (b'.' ∷ text)))
          then fail err_toobig
          else got (column ++ (b'.' ∷ text))

-- The int result by its sign: -1 is `lt`, 0 is `eq` and 1 is `gt`. The lists end together with the
-- loop over the shared length.
unfoldable pub table_instance_compare : TableInstance → TableInstance → Ordering
table_instance_compare [] [] = Ordering.eq
table_instance_compare [] (b ∷ bs) = Ordering.lt
table_instance_compare (a ∷ as') [] = Ordering.gt
table_instance_compare (a ∷ as') (b ∷ bs) =
    let rest = table_instance_compare as' bs in
    if a == b then rest else if ltb a b then Ordering.lt else Ordering.gt
