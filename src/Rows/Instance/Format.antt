-- ===== src/Rows/Instance/Format.antt =====
-- What table_instance_format of src/table_rows.c writes, and when it fits.
use agentx_subagent.Prelude.{
  ℕ, ◌-◌, ◌<◌, ◌≤◌, ◌≡◌, ◌∙◌, true, [], ◌∷◌, ◌++◌, Bytes, length, length-append, append_assoc,
  append-nil, some, leb, if◌then◌else◌, arith, Bool-cases, inl, inr,
}
use agentx_subagent.Storage.Types.{err_toobig}
use agentx_subagent.Storage.Codec.{Res, got, fail}
use agentx_subagent.Rows.Instance.{
  TableInstance, subid_max, decimal, format_loop, table_instance_format,
}

-- The sub-identifiers in decimal, a '.' between two of them.
unfoldable pub dotted_tail : TableInstance → Bytes
dotted_tail [] = []
dotted_tail (v ∷ vs) = b'.' ∷ (decimal v ++ dotted_tail vs)

unfoldable pub dotted : TableInstance → Bytes
unfolding dotted_tail
dotted [] = []
dotted (v ∷ vs) = decimal v ++ dotted_tail vs

abbrev fitted : Bytes → ℕ → Res Bytes
fitted text buflen = if leb buflen (length text) then fail err_toobig else got text

format_loop_tail :
    (vs : TableInstance) (out : Bytes) (buflen : ℕ)
    → length out < buflen
    → format_loop (b'.' ∷ []) vs out buflen ≡ fitted (out ++ dotted_tail vs) buflen
unfolding format_loop dotted_tail
format_loop_tail [] out buflen h = rw append-nil (ground arith)
format_loop_tail (v ∷ vs) out buflen h =
    let piece : Bytes = b'.' ∷ decimal v in
    elim (Bool-cases (leb (buflen - length out) (length piece))) [
      | inl full ↦ rw full (
          ground (
            arith,
            length-append out (piece ++ dotted_tail vs),
            length-append piece (dotted_tail vs),
          ))
      | inr room ↦ rw room (
          format_loop_tail vs (out ++ piece) buflen (ground (arith, length-append out piece))
          ∙ rw (append_assoc out piece (dotted_tail vs)))
    ]

-- For an instance of 1 to 128 sub-identifiers and a buffer that is not empty,
-- table_instance_format writes the dotted decimal text if the buffer holds it and its terminator,
-- and otherwise fails with ERR_TOOBIG.
pub table_instance_format_lem :
    (inst : TableInstance) (buflen : ℕ)
    → 0 < buflen
    → 0 < length inst
    → length inst ≤ subid_max
    → table_instance_format (some inst) true buflen
      ≡ (if leb buflen (length (dotted inst)) then fail err_toobig else got (dotted inst))
unfolding table_instance_format format_loop dotted
table_instance_format_lem [] buflen room some_id few = absurd (omega arith)
table_instance_format_lem (v ∷ vs) buflen room some_id few =
    ground
      (arith, format_loop_tail vs (decimal v) buflen, length-append (decimal v) (dotted_tail vs))

format_guards :
    (inst : TableInstance) (buflen : ℕ) (text : Bytes)
    → table_instance_format (some inst) true buflen ≡ got text
    → (0 < buflen) × (0 < length inst) × (length inst ≤ subid_max)
unfolding table_instance_format
format_guards inst buflen text h = ground arith

-- A text that was written is the dotted one, of a proper instance, and fits with its terminator.
pub table_instance_format-eq-got :
    (inst : TableInstance) (buflen : ℕ) (text : Bytes)
    → table_instance_format (some inst) true buflen ≡ got text
    → (text ≡ dotted inst) × (length text < buflen) × (0 < length inst) × (length inst ≤ subid_max)
table_instance_format-eq-got inst buflen text h =
    let (room, some_id, few) = format_guards inst buflen text h in
    ground (arith, table_instance_format_lem inst buflen room some_id few)
